-- ===== src/Redis.antt =====
-- The Redis server as an interface: an unknown store with the commands that the services call, and
-- what the command reference says of them. Keys hold one type each (text, hash or set), as the key
-- names of packages/pulsefm-redis do, so no command meets WRONGTYPE. Stored text is kept parsed:
-- `json s` is the text that `json.dumps` gives for `s`, `text t` any text that is no such document.
pub mod Keys
pub mod Memory
pub mod Tests
pub mod Playback
pub mod Poll
use pulse_fm.Base.{
  ℕ, ◌+◌, ◌-◌, ◌≡◌, ◌≢◌, String, Bool, true, false, not, ◌&&◌, Option, none, some, [], ◌==◌,
  if◌then◌else◌,
}
use pulse_fm.Base.Int.{ℤ}
use pulse_fm.Base.Dict.{Dict, lookup}
use pulse_fm.Snapshot.{Snapshot}

pub data Stored : Type 0 where
  json : Snapshot → Stored
  text : String → Stored

-- The value of a hash field: the text of a count, or another text.
pub data HashValue : Type 0 where
  number : ℕ → HashValue
  word : String → HashValue

-- The number to which HINCRBY adds; `none` stands for its error reply.
abbrev pub counter : Option HashValue → Option ℕ
counter none = some 0
counter (some (number n)) = some n
counter (some (word _)) = none

pub record Commands (S : Type 0) : Type 0 where
  pub get : S → String → Option Stored
  pub ttl : S → String → ℤ
  pub hgetall : S → String → Dict HashValue
  pub sismember : S → String → String → Bool
  pub set : S → String → Stored → Option ℕ → S
  pub del : S → String → S
  pub hset : S → String → String → HashValue → S
  pub hincrby : S → String → String → ℕ → S
  pub sadd : S → String → String → ℕ × S
  pub srem : S → String → String → S
  pub expire : S → String → ℕ → S

-- HGET, and HEXISTS by it.
abbrev pub hget : {S : Type 0} → Commands S → S → String → String → Option HashValue
hget c s k f = lookup f (c.hgetall s k)

abbrev both : String → String → String → String → Bool
both k j f g = (k == j) && (f == g)

-- What each command does to text, hashes and sets, when read at any key.
pub record IsLawful {S : Type 0} (c : Commands S) : Type 0 where
  pub get-set :
      (s : S) (k j : String) (v : Stored) (e : Option ℕ)
      → c.get (c.set s k v e) j ≡ (if k == j then some v else c.get s j)
  pub hgetall-set :
      (s : S) (k j : String) (v : Stored) (e : Option ℕ)
      → k ≢ j
      → c.hgetall (c.set s k v e) j ≡ c.hgetall s j
  pub sismember-set :
      (s : S) (k j : String) (v : Stored) (e : Option ℕ) (m : String)
      → k ≢ j
      → c.sismember (c.set s k v e) j m ≡ c.sismember s j m
  pub get-del : (s : S) (k j : String) → c.get (c.del s k) j ≡ (if k == j then none else c.get s j)
  pub hgetall-del :
      (s : S) (k j : String) → c.hgetall (c.del s k) j ≡ (if k == j then [] else c.hgetall s j)
  pub sismember-del :
      (s : S) (k j m : String)
      → c.sismember (c.del s k) j m ≡ (if k == j then false else c.sismember s j m)
  pub get-hset :
      (s : S) (k f : String) (v : HashValue) (j : String) → c.get (c.hset s k f v) j ≡ c.get s j
  pub hget-hset :
      (s : S) (k f : String) (v : HashValue) (j g : String)
      → hget c (c.hset s k f v) j g ≡ (if both k j f g then some v else hget c s j g)
  pub sismember-hset :
      (s : S) (k f : String) (v : HashValue) (j m : String)
      → c.sismember (c.hset s k f v) j m ≡ c.sismember s j m
  pub get-hincrby :
      (s : S) (k f : String) (n : ℕ) (j : String) → c.get (c.hincrby s k f n) j ≡ c.get s j
  pub hget-hincrby :
      (s : S) (k f : String) (n : ℕ) (j g : String) (old : ℕ)
      → counter (hget c s k f) ≡ some old
      → hget c (c.hincrby s k f n) j g
        ≡ (if both k j f g then some (number (old + n)) else hget c s j g)
  pub sismember-hincrby :
      (s : S) (k f : String) (n : ℕ) (j m : String)
      → c.sismember (c.hincrby s k f n) j m ≡ c.sismember s j m
  pub sadd-reply : (s : S) (k m : String) → (c.sadd s k m).0 ≡ (if c.sismember s k m then 0 else 1)
  pub get-sadd : (s : S) (k m j : String) → c.get (c.sadd s k m).1 j ≡ c.get s j
  pub hgetall-sadd : (s : S) (k m j : String) → c.hgetall (c.sadd s k m).1 j ≡ c.hgetall s j
  pub sismember-sadd :
      (s : S) (k m j x : String)
      → c.sismember (c.sadd s k m).1 j x ≡ (if both k j m x then true else c.sismember s j x)
  pub get-srem : (s : S) (k m j : String) → c.get (c.srem s k m) j ≡ c.get s j
  pub hgetall-srem : (s : S) (k m j : String) → c.hgetall (c.srem s k m) j ≡ c.hgetall s j
  pub sismember-srem :
      (s : S) (k m j x : String)
      → c.sismember (c.srem s k m) j x ≡ (if both k j m x then false else c.sismember s j x)
  pub get-expire : (s : S) (k : String) (n : ℕ) (j : String) → c.get (c.expire s k n) j ≡ c.get s j
  pub hgetall-expire :
      (s : S) (k : String) (n : ℕ) (j : String) → c.hgetall (c.expire s k n) j ≡ c.hgetall s j
  pub sismember-expire :
      (s : S) (k : String) (n : ℕ) (j m : String)
      → c.sismember (c.expire s k n) j m ≡ c.sismember s j m
