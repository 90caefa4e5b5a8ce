-- ===== src/Worker/Lease/Tests.antt =====
-- Two deliveries of one event.
use commerceops_ai_platform.Base.{
  ℕ, ◌+◌, ◌≡◌, ◌⊎◌, refl, inl, inr, Bool, true, false, not, none, String, List, [], ◌∷◌, ok, arith,
}
use commerceops_ai_platform.Reliability.Retry.{Timing, retry_with_backoff}
use commerceops_ai_platform.Cache.{Redis, cache_get_json, cache_set_if_absent}
use commerceops_ai_platform.Cache.Lasting.{IsLasting}
use commerceops_ai_platform.Idempotency.{
  EventKey, lease, acquire_lease, completed_handlers, record_handler_done,
}
use commerceops_ai_platform.Worker.{Handler, Config}
use commerceops_ai_platform.Worker.Race.{set, advance}
use commerceops_ai_platform.Worker.Lease.{
  Deliveries, waiting, skipped, left, take_turn, step, run, begun,
}
use commerceops_ai_platform.Worker.Lease.Exclusive.{is_serving, run-Exclusive}

-- A Redis with room for one lease: it drops the cached lists.
abbrev lease_only : Redis Bool EventKey (List String)
lease_only = record {
  get = λ k c. (ok none, c);
  set = λ k v ttl c. (ok tt, c);
  set_nx = λ k ttl c. (ok (not c), true);
  delete = λ ks c. (ok tt, false);
  ping = λ c. (ok true, c);
  randint = λ d c. (d, c);
}

abbrev Held : Bool → Type 0
Held c = c ≡ true

answers : (c : Bool) → ((not c ≡ true) × ¬ Held c) ⊎ ((not c ≡ false) × Held c)
answers true = inr (refl, refl)
answers false = inl (refl, λ h. ground arith)

lease_only-IsLasting : (k : EventKey) → IsLasting lease_only k Held
lease_only-IsLasting k = record {
  set_nx-answers = λ ttl c. elim (answers c) [
    | inl (e, h) ↦ inl (rw e refl, h)
    | inr (e, h) ↦ inr (rw e refl, h)
  ];
  stands-set_nx = λ ttl c. refl;
  stands-get = λ j c h. h;
  stands-set = λ j v ttl c h. h;
  stands-randint = λ d c h. h;
}

abbrev timing : Timing ℕ
timing = record { uniform = λ d s. (d, s); sleep = λ d s. s }

abbrev config : Config
config = record {
  idempotency = record {
    cache_enabled = true;
    idempotency_lease_ttl_seconds = 60;
    sqs_idempotency_ttl_seconds = 86400;
  };
  retry = record { attempts = 2; base_delay = 100; multiplier = 2; max_delay = 300; jitter = true };
  sqs_queue_name = "events";
  sqs_dlq_name = "events-dlq";
  sqs_visibility_timeout_seconds = 60;
}

-- What is outside is the number of the emails that were sent.
abbrev email : Handler ℕ ℕ ℕ
email = record { name = "email"; run = λ event_type payload x. (ok tt, x + 1) }

abbrev before : Deliveries Bool ℕ ℕ ℕ
before =
    begun lease_only timing config (email ∷ []) "e1" "OrderCreated" 5
      (record { rows = []; cache = false }) 0

abbrev after : List ℕ → Deliveries Bool ℕ ℕ ℕ
after schedule = run lease_only timing config (email ∷ []) "e1" "OrderCreated" 5 schedule before

abbrev lockstep : List ℕ
lockstep = 0 ∷ 1 ∷ 0 ∷ 1 ∷ 0 ∷ 1 ∷ 0 ∷ 1 ∷ 0 ∷ 1 ∷ 0 ∷ 1 ∷ []

-- With the lease, the steps that send two emails without it send one.
sent_once : (after lockstep).shared.outside ≡ 1
unfolding run step take_turn advance set begun acquire_lease cache_set_if_absent completed_handlers
    cache_get_json retry_with_backoff record_handler_done
sent_once = refl

second_skipped : (after lockstep).turn 1 ≡ skipped
unfolding run step take_turn advance set begun acquire_lease cache_set_if_absent completed_handlers
    cache_get_json retry_with_backoff record_handler_done
second_skipped = refl

first_left : (after lockstep).turn 0 ≡ left []
unfolding run step take_turn advance set begun acquire_lease cache_set_if_absent completed_handlers
    cache_get_json retry_with_backoff record_handler_done
first_left = refl

serves : is_serving ((after (0 ∷ 1 ∷ 0 ∷ [])).turn 0) ≡ true
unfolding is_serving run step take_turn advance set begun acquire_lease cache_set_if_absent
    completed_handlers cache_get_json
serves = refl

abbrev first : ℕ
first = 0

run-Exclusive_example :
    (first ≡ first)
    × ((take_turn lease_only timing config
          (email ∷ [])
          "e1"
          "OrderCreated"
          5
          waiting
          (after (0 ∷ 1 ∷ 0 ∷ [])).shared).0
        ≡ skipped)
run-Exclusive_example =
    run-Exclusive lease_only timing config (email ∷ []) "e1" "OrderCreated" 5 Held
      (lease_only-IsLasting (lease "e1")) (record { rows = []; cache = false }) 0 (0 ∷ 1 ∷ 0 ∷ [])
      first first (after (0 ∷ 1 ∷ 0 ∷ [])).turn (after (0 ∷ 1 ∷ 0 ∷ [])).shared refl serves serves
