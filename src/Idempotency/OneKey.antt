-- ===== src/Idempotency/OneKey.antt =====
-- A Redis that keeps the key written last and evicts every other, leases included. It satisfies the
-- laws, so that what is proved from them holds of something.
use commerceops_ai_platform.Base.{
  ◌≡◌, refl, ap, inl, inr, Bool, true, false, Bool-cases, Option, none, some, String, List, str_eq,
  str_eq_sound, str_eq_self, if◌then◌else◌, ok, arith,
}
use commerceops_ai_platform.Cache.{Redis, decoded, Raw}
use commerceops_ai_platform.Cache.Laws.{IsRedis}
use commerceops_ai_platform.Idempotency.Forgets.{IsPrompt}
use commerceops_ai_platform.Idempotency.{EventKey, lease, handlers_done}

abbrev pub Slot : Type 0
Slot = Option (EventKey × List String)

abbrev key_eq : EventKey → EventKey → Bool
key_eq (lease a) (lease b) = str_eq a b
key_eq (handlers_done a) (handlers_done b) = str_eq a b
key_eq _ _ = false

key_eq_sound : (j k : EventKey) → key_eq j k ≡ true → j ≡ k
key_eq_sound (lease a) (lease b) h = ap lease (str_eq_sound a b h)
key_eq_sound (handlers_done a) (handlers_done b) h = ap handlers_done (str_eq_sound a b h)
key_eq_sound (lease a) (handlers_done b) h = ground arith
key_eq_sound (handlers_done a) (lease b) h = ground arith

abbrev read : EventKey → Slot → Option (Raw (List String))
read k none = none
read k (some (j, v)) = if key_eq j k then some (decoded v) else none

abbrev pub one_key : Redis Slot EventKey (List String)
one_key = record {
  get = λ k c. (ok (read k c), c);
  set = λ k v ttl c. (ok tt, some (k, v));
  set_nx = λ k ttl c. (ok true, c);
  delete = λ ks c. (ok tt, none);
  ping = λ c. (ok true, c);
  randint = λ j c. (j, c);
}

abbrev pub Keeps : Slot → EventKey → List String → Type 0
Keeps c k v = c ≡ some (k, v)

read-Keeps : (k : EventKey) (v : List String) (c : Slot) → read k c ≡ some (decoded v) → Keeps c k v
read-Keeps k v none e = ground arith
read-Keeps k v (some (j, w)) e = elim (Bool-cases (key_eq j k)) [
  | inl same ↦
      let there : j ≡ k = key_eq_sound j k same in
      let value : w ≡ v = ground arith in λ i. some (there i, value i)
  | inr other ↦ ground arith
]

pub one_key-IsRedis : IsRedis one_key Keeps
one_key-IsRedis = record {
  get-returns = λ k v c e. read-Keeps k v c (ground arith);
  holds-get = λ k j v c h. h;
  holds-set = λ k j v w ttl c h. inl (ground arith, ground arith);
  holds-set_nx = λ k j v ttl c h. h;
  holds-delete = λ ks j v c h. ground arith;
  holds-delete_self = λ k v c e h. ground arith;
  holds-randint = λ j k v c h. h;
  randint-le = λ j c. omega arith;
}

key_eq_self : (k : EventKey) → key_eq k k ≡ true
key_eq_self (lease a) = str_eq_self a
key_eq_self (handlers_done a) = str_eq_self a

pub one_key-IsPrompt : IsPrompt one_key
one_key-IsPrompt = record { get-set = λ k v ttl c. rw (key_eq_self k) refl }
