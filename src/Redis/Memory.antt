-- ===== src/Redis/Memory.antt =====
-- A store that meets the laws of `Redis.IsLawful`: four functions of the key. It shows that the
-- assumptions can hold, and the tests run on it.
use pulse_fm.Base.{
  ℕ, ◌+◌, ◌≡◌, refl, String, Bool, true, false, ◌&&◌, Option, none, some, [], arith, ◌==◌, eq_iff,
  or_else, if◌then◌else◌,
}
use pulse_fm.Base.Int.{ℤ, pos, negsuc}
use pulse_fm.Base.Dict.{Dict, lookup, insert, lookup-insert}
use pulse_fm.Redis.{Stored, HashValue, number, counter, Commands, IsLawful, hget}

pub record Memory : Type 0 where
  pub texts : String → Option Stored
  pub ttls : String → ℤ
  pub hashes : String → Dict HashValue
  pub members : String → String → Bool

abbrev pub at {ℓ} : {A : Type ℓ} → (String → A) → String → A → String → A
at f k v j = if k == j then v else f j

abbrev pub nothing : Memory
nothing = record {
  texts = λ _. none;
  ttls = λ _. negsuc 1;
  hashes = λ _. [];
  members = λ _ _. false;
}

abbrev expiry : Option ℕ → ℤ
expiry none = negsuc 0
expiry (some n) = pos n

abbrev plus : Option HashValue → ℕ → HashValue
plus h n = number (or_else (counter h) 0 + n)

abbrev pub commands : Commands Memory
commands = record {
  get = λ s. s.texts;
  ttl = λ s. s.ttls;
  hgetall = λ s. s.hashes;
  sismember = λ s. s.members;
  set = λ s k v e. record s { texts = at s.texts k (some v); ttls = at s.ttls k (expiry e) };
  del = λ s k. record {
    texts = at s.texts k none;
    ttls = at s.ttls k (negsuc 1);
    hashes = at s.hashes k [];
    members = at s.members k (λ _. false);
  };
  hset = λ s k f v. record s { hashes = at s.hashes k (insert f v (s.hashes k)) };
  hincrby = λ s k f n. record s {
    hashes = at s.hashes k (insert f (plus (lookup f (s.hashes k)) n) (s.hashes k));
  };
  sadd = λ s k m. (
    if s.members k m then 0 else 1,
    record s { members = at s.members k (at (s.members k) m true) },
  );
  srem = λ s k m. record s { members = at s.members k (at (s.members k) m false) };
  expire = λ s k n. record s { ttls = at s.ttls k (pos n) };
}

get-set_lem :
    (s : Memory) (k j : String) (v : Stored) (e : Option ℕ)
    → commands.get (commands.set s k v e) j ≡ (if k == j then some v else commands.get s j)
get-set_lem s k j v e = refl

hget-hset_lem :
    (s : Memory) (k f : String) (v : HashValue) (j g : String)
    → hget commands (commands.hset s k f v) j g
      ≡ (if (k == j) && (f == g) then some v else hget commands s j g)
hget-hset_lem s k f v j g = ground (arith, eq_iff k j, lookup-insert f g v (s.hashes k))

hget-hincrby_lem :
    (s : Memory) (k f : String) (n : ℕ) (j g : String) (old : ℕ)
    → counter (hget commands s k f) ≡ some old
    → hget commands (commands.hincrby s k f n) j g
      ≡ (if (k == j) && (f == g) then some (number (old + n)) else hget commands s j g)
hget-hincrby_lem s k f n j g old e =
    ground (arith, eq_iff k j, lookup-insert f g (plus (lookup f (s.hashes k)) n) (s.hashes k))

sismember-sadd_lem :
    (s : Memory) (k m j x : String) (b : Bool)
    → at s.members k (at (s.members k) m b) j x
      ≡ (if (k == j) && (m == x) then b else s.members j x)
sismember-sadd_lem s k m j x b = ground (arith, eq_iff k j)

sismember-del_lem :
    (s : Memory) (k j m : String)
    → commands.sismember (commands.del s k) j m
      ≡ (if k == j then false else commands.sismember s j m)
sismember-del_lem s k j m = ground arith

pub commands-IsLawful : IsLawful commands
commands-IsLawful = record {
  get-set = get-set_lem;
  hgetall-set = λ s k j v e h. refl;
  sismember-set = λ s k j v e m h. refl;
  get-del = λ s k j. refl;
  hgetall-del = λ s k j. refl;
  sismember-del = sismember-del_lem;
  get-hset = λ s k f v j. refl;
  hget-hset = hget-hset_lem;
  sismember-hset = λ s k f v j m. refl;
  get-hincrby = λ s k f n j. refl;
  hget-hincrby = hget-hincrby_lem;
  sismember-hincrby = λ s k f n j m. refl;
  sadd-reply = λ s k m. refl;
  get-sadd = λ s k m j. refl;
  hgetall-sadd = λ s k m j. refl;
  sismember-sadd = λ s k m j x. sismember-sadd_lem s k m j x true;
  get-srem = λ s k m j. refl;
  hgetall-srem = λ s k m j. refl;
  sismember-srem = λ s k m j x. sismember-sadd_lem s k m j x false;
  get-expire = λ s k n j. refl;
  hgetall-expire = λ s k n j. refl;
  sismember-expire = λ s k n j m. refl;
}
