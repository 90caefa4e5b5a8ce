-- ===== src/Order/Holdings.antt =====
-- The stock that the stored orders stand for.
use commerceops_ai_platform.Base.{
  ℕ, suc, ◌+◌, ◌<◌, ◌≡◌, refl, Bool, true, false, Option, none, some, [], ◌∷◌, if◌then◌else◌, All,
  Table, lookup, insert, arith,
}
use commerceops_ai_platform.Product.Stock.Sorted.{ordered}
use commerceops_ai_platform.Order.Data.{
  OrderStatus, pending, paid, payment_failed, cancelled, payment_pending, Order,
}
use commerceops_ai_platform.Order.{items_of}

-- The statuses whose orders keep what they reserved.
abbrev pub is_holding : OrderStatus → Bool
is_holding pending = true
is_holding paid = true
is_holding payment_pending = true
is_holding payment_failed = false
is_holding cancelled = false

-- The quantity of product `k` that an order keeps.
abbrev pub holding : Order → ℕ → ℕ
holding o k = if is_holding o.status then ordered (items_of o.items) k else 0

abbrev pub held : Table Order → ℕ → ℕ
held [] k = 0
held ((id, o) ∷ t) k = holding o k + held t k

-- What the row of an id keeps.
abbrev pub kept : Option Order → ℕ → ℕ
kept none k = 0
kept (some o) k = holding o k

pub held-insert :
    (id : ℕ) (o : Order) (t : Table Order) (k : ℕ)
    → held (insert id o t) k + kept (lookup id t) k ≡ held t k + holding o k
held-insert id o [] k = ground arith
held-insert id o ((j, p) ∷ t) k = ground (arith, held-insert id o t k)

-- All ids are below the next one.
abbrev pub IsFresh : ℕ → Table Order → Type 0
IsFresh n t = All (λ row. row.0 < n) t

pub lookup_of_IsFresh : (n : ℕ) (t : Table Order) → IsFresh n t → lookup n t ≡ none
lookup_of_IsFresh n [] h = refl
lookup_of_IsFresh n ((j, o) ∷ t) h = ground (arith, lookup_of_IsFresh n t h.1)

pub insert-IsFresh :
    (n id : ℕ) (o : Order) (t : Table Order) → id < n → IsFresh n t → IsFresh n (insert id o t)
insert-IsFresh n id o [] lt h = (lt, tt)
insert-IsFresh n id o ((j, p) ∷ t) lt h = ground (arith, insert-IsFresh n id o t lt h.1)

pub suc-IsFresh : (n : ℕ) (t : Table Order) → IsFresh n t → IsFresh (suc n) t
suc-IsFresh n [] h = tt
suc-IsFresh n ((j, o) ∷ t) h = (omega arith, suc-IsFresh n t h.1)

pub lt_of_lookup :
    (n id : ℕ) (o : Order) (t : Table Order) → IsFresh n t → lookup id t ≡ some o → id < n
lt_of_lookup n id o [] h e = absurd (cc)
lt_of_lookup n id o ((j, p) ∷ t) h e =
    ground (arith, λ (x : lookup id t ≡ some o). lt_of_lookup n id o t h.1 x)
