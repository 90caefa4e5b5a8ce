-- ===== src/Order/Routes/Tests.antt =====
-- An order of a product that is short.
use commerceops_ai_platform.Base.{⊤, ◌≡◌, refl, [], ◌∷◌, ok, err, arith}
use commerceops_ai_platform.Payment.{unknown, retries_exhausted}
use commerceops_ai_platform.Order.Data.{Database, service_error, Peers}
use commerceops_ai_platform.Order.{create_order}
use commerceops_ai_platform.Order.Routes.{OrderCreate, post_order, post_order_refused}

abbrev peers : Peers ⊤
peers = record {
  reserve = λ items s. (err (service_error 409), s);
  release = λ items s. (ok tt, s);
  charge = λ request s. (
    record {
      order_id = request.order_id;
      status = unknown;
      transaction_id = "";
      amount = request.amount;
      reason = retries_exhausted;
    },
    s,
  );
  publish = λ event s. s;
}

abbrev db : Database
db = record { customers = (1, "customer") ∷ []; orders = []; next_id = 1 }

abbrev payload : OrderCreate
payload = record { customer_id = 1; items = (4, 6) ∷ [] }

abbrev ended : Database
ended = (post_order peers payload (db, tt)).1.0

short : post_order peers payload (db, tt) ≡ (err 409, (ended, tt))
unfolding post_order create_order
short = refl

post_order_refused_example : ended ≡ db
post_order_refused_example =
    post_order_refused peers payload db tt 409 ended tt short (λ e. ground (arith, e))
