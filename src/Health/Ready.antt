-- ===== src/Health/Ready.antt =====
-- When a service reports that it is ready.
use commerceops_ai_platform.Base.{
  ℕ, ◌≡◌, refl, ◌↔◌, Bool, true, false, ◌&&◌, ◌||◌, not, Option, none, some, if◌then◌else◌, arith,
}
use commerceops_ai_platform.Reliability.Breaker.{State, closed, open_, half_open}
use commerceops_ai_platform.Health.{
  Probe, Flags, Outside, ReplicaCheck, Checks, Status, ok_, degraded, passes, gateway_passes,
  is_closed, is_degraded, asked, readiness_check,
}

-- What a dependency has to answer where it is asked for.
abbrev pub Answers : Bool → Bool → Type 0
Answers false b = Unit {0}
Answers true b = b ≡ true

abbrev pub GatewayAnswers : Bool → Probe → Type 0
GatewayAnswers false p = Unit {0}
GatewayAnswers true p = (p.reachable ≡ true) × (p.circuit_state ≡ closed)

-- The dependencies answer, asked one after another; one that is not asked for changes nothing.
abbrev pub after : {S A : Type 0} → Bool → (S → A × S) → S → S
after true check s = (check s).1
after false check s = s

abbrev pub IsUp : {S : Type 0} → Outside S → Flags → S → Type 0
IsUp o f s =
    let s1 = (o.select_one s).1 in
    let s2 = after f.check_redis o.cache_ping s1 in
    let s3 = after f.check_queue o.queue_reachable s2 in
    ((o.select_one s).0 ≡ true)
    × Answers f.check_redis (o.cache_ping s1).0
    × Answers f.check_queue (o.queue_reachable s2).0
    × GatewayAnswers f.check_payment_gateway (o.probe_gateway s3).0

abbrev pub status_of : Bool → Status
status_of bad = if bad then degraded else ok_

-- An entry by its flag.
abbrev pub entry : {A : Type 0} → Bool → A → Option A
entry true a = some a
entry false a = none

not_degraded : (bad : Bool) → (status_of bad ≡ ok_) ↔ (bad ≡ false)
not_degraded true = (λ h. absurd (ground arith), λ h. absurd (ground arith))
not_degraded false = (λ h. refl, λ h. refl)

or_false : (a b : Bool) → (a || b ≡ false) ↔ ((a ≡ false) × (b ≡ false))
or_false true b = (λ h. absurd (ground arith), λ h. absurd (ground (arith, h.0)))
or_false false b = (λ h. (refl, h), λ h. h.1)

entry-Answers : (flag b : Bool) → (flag && not (passes (entry flag b)) ≡ false) ↔ Answers flag b
entry-Answers false b = (λ h. tt, λ h. refl)
entry-Answers true true = (λ h. refl, λ h. refl)
entry-Answers true false = (λ h. absurd (ground arith), λ h. absurd (ground (arith, h)))

entry-GatewayAnswers :
    (flag : Bool) (p : Probe)
    → (flag && not (gateway_passes (entry flag p)) ≡ false) ↔ GatewayAnswers flag p
entry-GatewayAnswers false p = (λ h. tt, λ h. refl)
entry-GatewayAnswers true p = go p.reachable p.circuit_state
  where
    go : (b : Bool) (c : State) → (not (b && is_closed c) ≡ false) ↔ ((b ≡ true) × (c ≡ closed))
    go true closed = (λ h. (refl, refl), λ h. refl)
    go true open_ = (λ h. absurd (ground arith), λ h. absurd (ground (arith, h.1)))
    go true half_open = (λ h. absurd (ground arith), λ h. absurd (ground (arith, h.1)))
    go false c = (λ h. absurd (ground arith), λ h. absurd (ground (arith, h.0)))

not-false : (b : Bool) → (not b ≡ false) ↔ (b ≡ true)
not-false true = (λ h. refl, λ h. refl)
not-false false = (λ h. absurd (ground arith), λ h. absurd (ground arith))

is_degraded_iff :
    (f : Flags) (database redis queue : Bool) (p : Probe) (replica : Option ReplicaCheck)
    → let c : Checks = record {
      database = database;
      redis = entry f.check_redis redis;
      queue = entry f.check_queue queue;
      payment_gateway = entry f.check_payment_gateway p;
      database_replica = replica;
    } in
      (status_of (is_degraded f c) ≡ ok_) ↔ (
        (database ≡ true)
        × Answers f.check_redis redis
        × Answers f.check_queue queue
        × GatewayAnswers f.check_payment_gateway p)
unfolding is_degraded
is_degraded_iff f database redis queue p replica =
    let d = not database in
    let r = f.check_redis && not (passes (entry f.check_redis redis)) in
    let q = f.check_queue && not (passes (entry f.check_queue queue)) in
    let g = f.check_payment_gateway && not (gateway_passes (entry f.check_payment_gateway p)) in
    (
      λ h.
          let all = (or_false (d || r || q) g).0 ((not_degraded (d || r || q || g)).0 h) in
          let three = (or_false (d || r) q).0 all.0 in
          let two = (or_false d r).0 three.0 in
          (
            (not-false database).0 two.0,
            (entry-Answers f.check_redis redis).0 two.1,
            (entry-Answers f.check_queue queue).0 three.1,
            (entry-GatewayAnswers f.check_payment_gateway p).0 all.1,
          ),
      λ h. (not_degraded (d || r || q || g)).1 (
          (or_false (d || r || q) g).1 (
            (or_false (d || r) q).1 (
              (or_false d r).1
                  ((not-false database).1 h.0, (entry-Answers f.check_redis redis).1 h.1),
              (entry-Answers f.check_queue queue).1 h.2,
            ),
            (entry-GatewayAnswers f.check_payment_gateway p).1 h.3,
          )),
    )

module _ {S : Type 0} (o : Outside S) (f : Flags) (replica_enabled : Bool) (max_lag : ℕ) where
  asked-entry :
      {A : Type 0} (flag : Bool) (check : S → A × S) (s : S)
      → (asked o f replica_enabled max_lag flag check s).0 ≡ entry flag (check s).0
  asked-entry true check s = refl
  asked-entry false check s = refl

  asked-after :
      {A : Type 0} (flag : Bool) (check : S → A × S) (s : S)
      → (asked o f replica_enabled max_lag flag check s).1 ≡ after flag check s
  asked-after true check s = refl
  asked-after false check s = refl

  -- A service reports `ok` exactly when `SELECT 1` works, Redis and the queue answer or are not asked
  -- for, and the gateway is reachable with a closed circuit or is not asked for. The replica's lag does
  -- not change the report: it is the same whatever the replica's settings.
  pub readiness_check_lem :
      (s : S) (check_replica replica_enabled' : Bool) (max_lag' : ℕ)
      → let status = (readiness_check o f replica_enabled max_lag s).0.0 in
        ((status ≡ ok_) ↔ IsUp o f s)
        × (status
            ≡ (readiness_check o
                (record f { check_replica = check_replica })
                replica_enabled'
                max_lag'
                s).0.0)
  unfolding readiness_check is_degraded
  readiness_check_lem s check_replica replica_enabled' max_lag' =
      let s1 = (o.select_one s).1 in
      let s2 = after f.check_redis o.cache_ping s1 in
      let s3 = after f.check_queue o.queue_reachable s2 in
      (
        rw
            (
              asked-after f.check_redis o.cache_ping s1,
              asked-after f.check_queue o.queue_reachable s2,
              asked-entry f.check_redis o.cache_ping s1,
              asked-entry f.check_queue o.queue_reachable s2,
              asked-entry f.check_payment_gateway o.probe_gateway s3,
            )
            (is_degraded_iff f (o.select_one s).0 (o.cache_ping s1).0 (o.queue_reachable s2).0
              (o.probe_gateway s3).0 none),
        refl,
      )
