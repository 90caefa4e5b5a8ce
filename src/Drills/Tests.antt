-- ===== src/Drills/Tests.antt =====
-- A failover of two seconds, and one after which the service goes down again.
use commerceops_ai_platform.Base.{
  ℕ, ◌+◌, ◌≡◌, ◌≢◌, refl, some, none, [], ◌∷◌, leb, ltb, ◌&&◌, ◌||◌, if◌then◌else◌, ok, err, arith,
}
use commerceops_ai_platform.Drills.{response, http_error, out_of_fuel, Tools, seed}
use commerceops_ai_platform.Drills.Polling.{IsClock, poll_until}
use commerceops_ai_platform.Drills.Failover.{
  Stack, Settings, verdict, missing, watch, cmd_failover_aws,
}
use commerceops_ai_platform.Drills.Failover.Log.{Log, IsObserved}
use commerceops_ai_platform.Drills.Failover.Judged.{Judged, cmd_failover_aws-Judged}
use commerceops_ai_platform.Drills.Failover.Ends.{IsTimed, cmd_failover_aws_ends}

-- The state is the time in milliseconds, which only sleeping takes.
abbrev tools : Tools ℕ
tools = record {
  monotonic = λ s. (s, s);
  sleep = λ d s. s + d;
  post_customer = λ s. (response 201 (some 1), s);
  post_product = λ s. (response 201 (some 4), s);
}

tools-IsClock : IsClock tools (λ s. s)
tools-IsClock = record {
  reads = λ s. refl;
  time-monotonic = λ s. omega arith;
  time-sleep = λ d s. omega arith;
}

-- The service is down in the second and the third second, and from the sixth on for orders.
abbrev stack : Stack ℕ
stack = record {
  reboot = λ s. (0, s);
  get_health = λ s. (response 200 none, s);
  post_order = λ customer_id product_id s.
      ((if (leb 1000 s && ltb s 3000) || leb 5000 s then http_error else response 201 (some s)), s);
  get_order = λ order_id s. (response 200 (some order_id), s);
}

abbrev settings : Settings
settings = record { timeout = 8000; poll_interval = 1000; min_success_after = 5; rto_budget = 3000 }

stack-IsTimed : IsTimed tools stack settings (λ s. s) tools-IsClock
stack-IsTimed = record {
  time-get_health = λ s. omega arith;
  time-post_order = λ customer_id product_id s. omega arith;
}

-- The second outage is not seen: the drill passes while every order fails.
passes_while_down : (cmd_failover_aws tools stack settings 8 0).0 ≡ ok 0
unfolding cmd_failover_aws seed poll_until watch verdict missing
passes_while_down = refl

cmd_failover_aws_ends_example : (cmd_failover_aws tools stack settings 8 0).0 ≢ err out_of_fuel
cmd_failover_aws_ends_example =
    cmd_failover_aws_ends tools stack settings (λ s. s) tools-IsClock stack-IsTimed 8 0
      (omega arith)

-- The same with what was seen.
abbrev logging : Tools (ℕ × Log)
logging = record {
  monotonic = λ s. (s.0, s);
  sleep = λ d s. (s.0 + d, s.1);
  post_customer = λ s. (response 201 (some 1), s);
  post_product = λ s. (response 201 (some 4), s);
}

abbrev logged : Stack (ℕ × Log)
logged = record {
  reboot = λ s. (0, s);
  get_health = λ s. (response 200 none, s);
  post_order = λ customer_id product_id s.
      let answer = (stack.post_order customer_id product_id s.0).0 in
      (answer, (s.0, (answer, s.0) ∷ s.1));
  get_order = λ order_id s. (response 200 (some order_id), s);
}

logged-IsObserved : IsObserved logging logged (λ s. s.0) (λ s. s.1)
logged-IsObserved = record {
  reads = λ s. refl;
  seen-monotonic = λ s. refl;
  seen-sleep = λ d s. refl;
  seen-post_customer = λ s. refl;
  seen-post_product = λ s. refl;
  seen-reboot = λ s. refl;
  seen-get_health = λ s. refl;
  seen-get_order = λ id s. refl;
  seen-post_order = λ customer_id product_id s. refl;
}

cmd_failover_aws-Judged_example :
    Judged logging logged settings
      (λ s. s.0)
      (λ s. s.1)
      logged-IsObserved
      (cmd_failover_aws logging logged settings 8 (0, []))
cmd_failover_aws-Judged_example =
    cmd_failover_aws-Judged logging logged settings (λ s. s.0) (λ s. s.1) logged-IsObserved 8
      (0, []) refl
