-- ===== src/Iam/Tests/Memory.antt =====
-- A concrete Redis and a concrete bcrypt, which show that what the service relies on can be met.
use rocket_factory.Prelude.{
  ℕ, String, ◌≡◌, refl, true, false, Bool-cases, inl, inr, Option, none, some, str_eq, eq_iff,
  if◌then◌else◌, arith,
}
use rocket_factory.Prelude.Int.{ℤ, ltb_ℤ}
use rocket_factory.Iam.Sessions.{SessionRedisView, zero_view, Redis}
use rocket_factory.Iam.Service.{Bcrypt}

-- A hash and its time to live under each key.
abbrev pub Keyspace : Type 0
Keyspace = String → Option (SessionRedisView × Option ℤ)

abbrev pub read_entry : ℤ → Option (SessionRedisView × Option ℤ) → SessionRedisView
read_entry t none = zero_view
read_entry t (some (v, none)) = v
read_entry t (some (v, some e)) = if ltb_ℤ t e then v else zero_view

abbrev pub write : String → Option (SessionRedisView × Option ℤ) → Keyspace → Keyspace
write k v r j = if str_eq j k then v else r j

abbrev pub expiring :
    ℤ → Option (SessionRedisView × Option ℤ) → Option (SessionRedisView × Option ℤ)
expiring e none = none
expiring e (some (v, _)) = some (v, some e)

str_eq_refl : (k : String) → str_eq k k ≡ true
str_eq_refl k = ground (arith, eq_iff k k)

pub hgetall-del :
    (t : ℤ) (j k : String) (r : Keyspace)
    → read_entry t (write k none r j) ≡ (if str_eq j k then zero_view else read_entry t (r j))
hgetall-del t j k r = elim (Bool-cases (str_eq j k)) [
  | inl same ↦ rw same refl
  | inr ne ↦ rw ne refl
]

pub hgetall-write_other :
    (t : ℤ) (j k : String) (v : Option (SessionRedisView × Option ℤ)) (r : Keyspace)
    → str_eq j k ≡ false
    → read_entry t (write k v r j) ≡ read_entry t (r j)
hgetall-write_other t j k v r ne = rw ne refl

pub hgetall-write :
    (t : ℤ) (k : String) (v : SessionRedisView) (r : Keyspace)
    → ((t' : ℤ) → read_entry t' (r k) ≡ zero_view)
    → read_entry t (write k (some (v, none)) r k) ≡ v
hgetall-write t k v r absent = rw (str_eq_refl k) refl

pub hgetall-expiring :
    (t : ℤ) (k : String) (v : SessionRedisView) (e : ℤ) (r : Keyspace)
    → ((t' : ℤ) → read_entry t' (r k) ≡ zero_view)
    → read_entry t
        (write k (expiring e (write k (some (v, none)) r k)) (write k (some (v, none)) r) k)
      ≡ (if ltb_ℤ t e then v else zero_view)
hgetall-expiring t k v e r absent = rw (str_eq_refl k) refl

abbrev pub memory : Redis Keyspace
memory = record {
  hset = λ k v r. write k (some (v, none)) r;
  hgetall = λ t k r. read_entry t (r k);
  expire_at = λ k e r. write k (expiring e (r k)) r;
  del = λ k r. write k none r;
  second = λ t. t;
  hgetall-del = hgetall-del;
  hgetall-hset_other = λ t j k v r. hgetall-write_other t j k (some (v, none)) r;
  hgetall-expire_at_other = λ t j k e r. hgetall-write_other t j k (expiring e (r k)) r;
  hgetall-hset = hgetall-write;
  hgetall-expire_at = hgetall-expiring;
}

-- Hashes that are the password itself.
pub plain_matches : (salt : ℕ) (p h : String) → some p ≡ some h → str_eq h p ≡ true
plain_matches salt p h e = let same : p ≡ h = cc in rw same (str_eq_refl h)

abbrev pub plain : Bcrypt
plain = record {
  generate = λ salt p. some p;
  matches = λ h p. str_eq h p;
  matches-generate = plain_matches;
}
