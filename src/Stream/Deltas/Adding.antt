-- ===== src/Stream/Deltas/Adding.antt =====
-- What a listener shows who adds up the deltas (client/hooks/useStreamPlayer.ts).
use pulse_fm.Base.{
  ℕ, ◌≡◌, refl, String, Bool, true, false, Option, none, some, [], ◌∷◌, arith, eq_iff, is_some,
  or_else, if◌then◌else◌,
}
use pulse_fm.Base.Int.{ℤ, pos, sub_ℕ}
use pulse_fm.Base.Dict.{Dict, lookup, insert, lookup-insert}
use pulse_fm.Stream.Deltas.{changed, vanished, tally_deltas, count, add_delta, apply_deltas}

-- A dict has each key once.
abbrev pub IsDict {ℓ} : {V : Type ℓ} → Dict V → Type ℓ
IsDict [] = Unit
IsDict ((k, v) ∷ d) = (lookup k d ≡ none) × IsDict d

insert-IsDict : (k : String) (v : ℤ) (d : Dict ℤ) → IsDict d → IsDict (insert k v d)
unfolding lookup insert
insert-IsDict k v [] h = (refl, tt)
insert-IsDict k v ((j, w) ∷ d) h =
    ground (arith, eq_iff j k, eq_iff k j, lookup-insert k j v d, insert-IsDict k v d h.1)

changed-IsDict :
    (last tallies : Dict ℕ) (ds : Dict ℤ) → IsDict ds → IsDict (changed last tallies ds)
unfolding changed
changed-IsDict last [] ds h = h
changed-IsDict last ((option, n) ∷ rest) ds h =
    changed-IsDict last rest _
      (insert-IsDict option (sub_ℕ n (or_else (lookup option last) 0)) ds h)

keep_or_insert-IsDict :
    (b : Bool) (option : String) (ds : Dict ℤ)
    → IsDict ds
    → IsDict (if b then ds else insert option (pos 0) ds)
keep_or_insert-IsDict true option ds h = h
keep_or_insert-IsDict false option ds h = insert-IsDict option (pos 0) ds h

vanished-IsDict : (last : Dict ℕ) (ds : Dict ℤ) → IsDict ds → IsDict (vanished last ds)
unfolding vanished
vanished-IsDict [] ds h = h
vanished-IsDict ((option, _) ∷ rest) ds h =
    vanished-IsDict rest _ (keep_or_insert-IsDict (is_some (lookup option ds)) option ds h)

-- The delta of an option that was read.
expected : Dict ℕ → String → Option ℕ → Option ℤ → Option ℤ
expected last o none otherwise = otherwise
expected last o (some n) otherwise = some (sub_ℕ n (count o last))

lookup-changed :
    (last tallies : Dict ℕ) (ds : Dict ℤ) (o : String)
    → IsDict tallies
    → lookup o (changed last tallies ds) ≡ expected last o (lookup o tallies) (lookup o ds)
unfolding changed lookup expected
lookup-changed last [] ds o h = refl
lookup-changed last ((option, n) ∷ rest) ds o h =
    let delta = sub_ℕ n (or_else (lookup option last) 0) in
    ground (
      arith,
      eq_iff option o,
      lookup-changed last rest (insert option delta ds) o h.1,
      lookup-insert option o delta ds,
    )

-- An option that vanished has the delta 0.
or_zero_delta : Dict ℕ → String → Option ℤ → Option ℤ
or_zero_delta last o (some d) = some d
or_zero_delta last o none = if is_some (lookup o last) then some (pos 0) else none

lookup-vanished :
    (last : Dict ℕ) (ds : Dict ℤ) (o : String)
    → lookup o (vanished last ds) ≡ or_zero_delta last o (lookup o ds)
unfolding vanished lookup or_zero_delta
lookup-vanished [] ds o = ground arith
lookup-vanished ((option, n) ∷ rest) ds o = ground (
  arith,
  eq_iff option o,
  lookup-vanished rest (if is_some (lookup option ds) then ds else insert option (pos 0) ds) o,
  lookup-insert option o (pos 0) ds,
)

-- The count of one option after the deltas.
after : Option ℤ → ℕ → ℕ
after none n = n
after (some d) n = add_delta n d

count-apply_deltas :
    (ds : Dict ℤ) (shown : Dict ℕ) (o : String)
    → IsDict ds
    → count o (apply_deltas ds shown) ≡ after (lookup o ds) (count o shown)
unfolding apply_deltas lookup after
count-apply_deltas [] shown o h = refl
count-apply_deltas ((option, d) ∷ rest) shown o h =
    let n = add_delta (count option shown) d in
    ground (
      arith,
      eq_iff option o,
      count-apply_deltas rest (insert option n shown) o h.1,
      lookup-insert option o n shown,
    )

lookup_nil : (o : String) → lookup {V = ℤ} o [] ≡ none
unfolding lookup
lookup_nil o = refl

-- The count of an option after the deltas from `last` to `tallies`, whatever was shown.
abbrev pub shifted : Dict ℕ → Dict ℕ → Dict ℕ → String → ℕ
shifted last tallies shown o =
    if is_some (lookup o tallies)
    then add_delta (count o shown) (sub_ℕ (count o tallies) (count o last))
    else count o shown

pub count-tally_deltas :
    (last tallies shown : Dict ℕ) (o : String)
    → IsDict tallies
    → count o (apply_deltas (tally_deltas last tallies) shown) ≡ shifted last tallies shown o
unfolding expected or_zero_delta after
count-tally_deltas last tallies shown o h =
    let ds = changed last tallies [] in
    let unique = vanished-IsDict last ds (changed-IsDict last tallies [] tt) in
    ground (
      arith,
      count-apply_deltas (tally_deltas last tallies) shown o unique,
      lookup-vanished last ds o,
      lookup-changed last tallies [] o h,
      lookup_nil o,
    )
