-- ===== src/Updater/Extraction.antt =====
-- `_extract_vote_id` (functions/next-song-updater/main.py) against the form of the names it accepts.
use Prim.Native.Char.{code}
use Prim.Native.String.{count}
use text.Mathlib.TextEquality.{Char-path}
use text.Mathlib.TextLemmas.{nil-append, cons-append, length-append, length-cons}
use pulse_fm.Base.{
  ◌≡◌, ◌≢◌, ◌↔◌, ◌∙◌, ap, sym, refl, inl, inr, String, ◌++◌, true, false, ◌||◌, some, ◌==◌, eqb,
  eq_iff, eq_refl, arith, Bool-cases, Option-cases,
}
use pulse_fm.Base.Text.{non_empty}
use pulse_fm.Updater.Names.{
  without_prefix, without_suffix, has_slash, normalize_prefix, vote_of_leaf, extract_vote_id,
}

without_prefix_sound : (prefix s r : String) → without_prefix prefix s ≡ some r → s ≡ prefix ++ r
unfolding without_prefix
without_prefix_sound String.[] s r e = ground (arith, nil-append r)
without_prefix_sound (String.◌∷◌ c prefix) String.[] r e = ground arith
without_prefix_sound (String.◌∷◌ c prefix) (String.◌∷◌ d s) r e =
    elim (Bool-cases (eqb (code c) (code d))) [
      | inr differ ↦ absurd (ground arith)
      | inl same ↦
          let rest = without_prefix_sound prefix s r (ground arith) in
          let same_char : c ≡ d = Char-path c d (ground arith) in
          ap (λ x. String.◌∷◌ x s) (sym same_char)
          ∙ ap (λ t. String.◌∷◌ c t) rest
          ∙ sym (cons-append c prefix r)
    ]

pub without_prefix_complete : (prefix r : String) → without_prefix prefix (prefix ++ r) ≡ some r
unfolding without_prefix
without_prefix_complete String.[] r = rw (nil-append r) refl
without_prefix_complete (String.◌∷◌ c prefix) r =
    rw (cons-append c prefix r) (ground (arith, without_prefix_complete prefix r))

without_suffix_sound : (suffix s r : String) → without_suffix suffix s ≡ some r → s ≡ r ++ suffix
unfolding without_suffix
without_suffix_sound suffix String.[] r e = ground arith
without_suffix_sound suffix (String.◌∷◌ c s) r e = elim (Bool-cases (String.◌∷◌ c s == suffix)) [
  | inl whole ↦ ground (arith, eq_iff (String.◌∷◌ c s) suffix, nil-append suffix)
  | inr part ↦ elim (Option-cases (without_suffix suffix s)) [
    | inl missing ↦ absurd (ground arith)
    | inr (t, found) ↦
        let is_r : String.◌∷◌ c t ≡ r = ground arith in
        ap (λ x. String.◌∷◌ c x) (without_suffix_sound suffix s t found)
        ∙ sym (cons-append c t suffix)
        ∙ ap (λ x. x ++ suffix) is_r
  ]
]

without_suffix_complete :
    (d : _) (suffix r : String)
    → without_suffix (String.◌∷◌ d suffix) (r ++ String.◌∷◌ d suffix) ≡ some r
unfolding without_suffix
without_suffix_complete d suffix String.[] =
    rw (nil-append (String.◌∷◌ d suffix)) (ground (arith, eq_refl (String.◌∷◌ d suffix)))
without_suffix_complete d suffix (String.◌∷◌ c r) =
    let full = String.◌∷◌ d suffix in
    let longer : String.◌∷◌ c (r ++ full) ≢ full =
      λ e. omega (arith, ap count e, length-cons c (r ++ full), length-append r full) in
    rw (cons-append c r full) (
      ground
        (arith, eq_iff (String.◌∷◌ c (r ++ full)) full, longer, without_suffix_complete d suffix r))

pub has_slash-append : (s t : String) → has_slash (s ++ t) ≡ (has_slash s || has_slash t)
unfolding has_slash
has_slash-append String.[] t = ap has_slash (nil-append t)
has_slash-append (String.◌∷◌ c s) t = rw (cons-append c s t) (ground (arith, has_slash-append s t))

-- The name of an object in the folder `encoded_prefix` itself that stands for the song of `vote_id`.
pub record IsEncoded (encoded_prefix object_name vote_id : String) : Type 0 where
  pub named : object_name ≡ normalize_prefix encoded_prefix ++ (vote_id ++ ".m4a")
  pub some_vote : non_empty vote_id ≡ true
  pub real : vote_id ≢ "stubbed"
  pub flat : has_slash vote_id ≡ false

suffix_flat : has_slash ".m4a" ≡ false
unfolding has_slash
suffix_flat = refl

vote_of_leaf_sound :
    (leaf vote_id : String)
    → vote_of_leaf leaf ≡ some vote_id
    → (leaf ≡ vote_id ++ ".m4a")
      × (non_empty vote_id ≡ true)
      × (vote_id ≢ "stubbed")
      × (has_slash vote_id ≡ false)
unfolding vote_of_leaf
vote_of_leaf_sound leaf vote_id e = elim (Option-cases (without_suffix ".m4a" leaf)) [
  | inl missing ↦ absurd (ground arith)
  | inr (v, found) ↦
      let is_v : v ≡ vote_id = ground arith in
      let split : leaf ≡ vote_id ++ ".m4a" =
        without_suffix_sound ".m4a" leaf v found ∙ ap (λ x. x ++ ".m4a") is_v in
      let flat : has_slash (vote_id ++ ".m4a") ≡ false = ground arith in
      (
        split,
        ground arith,
        (λ stub. ground (arith, eq_iff v "stubbed")),
        ground (arith, has_slash-append vote_id ".m4a"),
      )
]

vote_of_leaf_complete :
    (vote_id : String)
    → non_empty vote_id ≡ true
    → vote_id ≢ "stubbed"
    → has_slash vote_id ≡ false
    → vote_of_leaf (vote_id ++ ".m4a") ≡ some vote_id
unfolding vote_of_leaf
vote_of_leaf_complete vote_id named real flat = ground (
  arith,
  has_slash-append vote_id ".m4a",
  suffix_flat,
  without_suffix_complete "." "m4a" vote_id,
  eq_iff vote_id "stubbed",
)

-- An object's name is taken for a vote exactly if it is the folder, the vote's id and ".m4a", where the
-- id is not empty, has no slash, and is not that of the stub.
pub extract_vote_id_iff :
    (encoded_prefix object_name vote_id : String)
    → (extract_vote_id encoded_prefix object_name ≡ some vote_id)
      ↔ IsEncoded encoded_prefix object_name vote_id
unfolding extract_vote_id
extract_vote_id_iff encoded_prefix object_name vote_id = (to, from)
  where
    to :
        extract_vote_id encoded_prefix object_name ≡ some vote_id
        → IsEncoded encoded_prefix object_name vote_id
    to e = elim (Option-cases (without_prefix (normalize_prefix encoded_prefix) object_name)) [
      | inl missing ↦ absurd (ground arith)
      | inr (leaf, found) ↦
          let (split, some_vote, real, flat) = vote_of_leaf_sound leaf vote_id (ground arith) in
          record {
            named =
                without_prefix_sound (normalize_prefix encoded_prefix) object_name leaf found
                ∙ ap (λ x. normalize_prefix encoded_prefix ++ x) split;
            some_vote = some_vote;
            real = real;
            flat = flat;
          }
    ]

    from :
        IsEncoded encoded_prefix object_name vote_id
        → extract_vote_id encoded_prefix object_name ≡ some vote_id
    from is_encoded = rw (is_encoded.named) (
        ground (
          arith,
          without_prefix_complete (normalize_prefix encoded_prefix) (vote_id ++ ".m4a"),
          vote_of_leaf_complete vote_id is_encoded.some_vote is_encoded.real is_encoded.flat,
        ))
