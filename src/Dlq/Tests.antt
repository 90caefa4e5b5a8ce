-- ===== src/Dlq/Tests.antt =====
-- Three messages in the dead-letter queue, of which one cannot be sent.
use commerceops_ai_platform.Base.{
  ⊤, ℕ, zero, suc, ◌≤◌, ◌≡◌, refl, sym, ap, subst, ◌⊎◌, inl, inr, Bool, Bool-cases, true, false,
  ◌&&◌, ◌||◌, some, String, List, [], ◌∷◌, All, length, contains, str_eq, str_eq_self, str_eq_sound,
  Result, ok, err, arith,
}
use commerceops_ai_platform.Queue.{Sqs, Message, AwsError, aws_error, resolve_queue_url}
use commerceops_ai_platform.Dlq.{Names, start, redrive_one, redrive_batch, redrive_loop, redrive}
use commerceops_ai_platform.Dlq.Ends.{IsPaged, Finished, redrive-Finished}
use commerceops_ai_platform.Dlq.Keeps.{IsTraced, redrive_loop_keeps}

-- What waits in the dead-letter queue, what was deleted there, and what was sent.
abbrev Mail : Type 0
Mail = List String × List String × List (String × String)

abbrev was_sent : String → String → List (String × String) → Bool
was_sent url b [] = false
was_sent url b ((u, c) ∷ rest) = (str_eq u url && str_eq c b) || was_sent url b rest

-- A message's body is its receipt.
abbrev letter : String → Message String
letter receipt = record { body = receipt; receipt_handle = receipt }

-- One message at a time.
abbrev next : ℕ → Mail → Result AwsError (List (Message String)) × Mail
next n ([], d, s) = (ok [], ([], d, s))
next zero (m ∷ ms, d, s) = (ok [], (m ∷ ms, d, s))
next (suc n) (m ∷ ms, d, s) = (ok (letter m ∷ []), (ms, d, s))

abbrev send_if : Bool → String → String → Mail → Result AwsError ⊤ × Mail
send_if true url b q = (err aws_error, q)
send_if false url b (w, d, s) = (ok tt, (w, d, (url, b) ∷ s))

abbrev send : String → String → Mail → Result AwsError ⊤ × Mail
send url b q = send_if (str_eq b "too long") url b q

abbrev delete : String → Mail → Result AwsError ⊤ × Mail
delete receipt (w, d, s) = (ok tt, (w, receipt ∷ d, s))

abbrev client : Sqs Mail String
client = record {
  get_queue_url = λ name q. (ok name, q);
  send_message = send;
  receive_message = λ url n q. next n q;
  delete_message = λ url receipt q. delete receipt q;
  change_message_visibility = λ url receipt n q. (ok tt, q);
}

abbrev mail : Mail
mail = ("a" ∷ "too long" ∷ "b" ∷ [], [], [])

abbrev names : Names
names = record { sqs_queue_name = "events"; sqs_dlq_name = "events-dlq" }

client-IsPaged : IsPaged client
client-IsPaged url n ([], d, s) q' ms e = subst (λ o. counted o) (ap (λ p. p.0) e) (omega arith)
  where
    counted : Result AwsError (List (Message String)) → Type 0
    counted (ok l) = length l ≤ n
    counted (err x) = Unit
client-IsPaged url zero (m ∷ w, d, s) q' ms e = ground (arith, e)
client-IsPaged url (suc n) (m ∷ w, d, s) q' ms e = ground (arith, e)

redrive-Finished_example :
    Finished client names 2 (redrive client names 2 (record { url_cache = []; sqs = mail }))
redrive-Finished_example =
    redrive-Finished client names 2 (record { url_cache = []; sqs = mail }) client-IsPaged

-- The messages that can be sent are moved, and the other one is counted and stays.
redrive_test :
    redrive client names 5 (record { url_cache = []; sqs = mail })
    ≡ some (
      ok (record { moved = 2; failed = 1 }),
      record {
        url_cache = ("events", "events") ∷ ("events-dlq", "events-dlq") ∷ [];
        sqs = ([], "b" ∷ "a" ∷ [], ("events", "b") ∷ ("events", "a") ∷ []);
      },
    )
unfolding redrive redrive_loop redrive_batch redrive_one resolve_queue_url
redrive_test = refl

abbrev Gone : Mail → String → Type 0
Gone (w, d, s) receipt = contains receipt d ≡ true

abbrev Sent : Mail → String → String → Type 0
Sent (w, d, s) url b = was_sent url b s ≡ true

sent_first : (url b : String) (s : List (String × String)) → was_sent url b ((url, b) ∷ s) ≡ true
sent_first url b s = rw (str_eq_self url, str_eq_self b) refl

or_true : (a b : Bool) → b ≡ true → a || b ≡ true
or_true true b h = refl
or_true false b h = h

Sent-send_if :
    (long : Bool) (url b : String) (q q' : Mail)
    → send_if long url b q ≡ (ok tt, q')
    → Sent q' url b
Sent-send_if true url b q q' e = absurd (ground (arith, e))
Sent-send_if false url b (w, d, s) q' e =
    subst (λ p. Sent p url b) (ap (λ o. o.1) e) (sent_first url b s)

Sent-send_if_keeps :
    (long : Bool) (url u b c : String) (q : Mail) → Sent q u c → Sent (send_if long url b q).1 u c
Sent-send_if_keeps true url u b c q h = h
Sent-send_if_keeps false url u b c (w, d, s) h =
    or_true (str_eq url u && str_eq b c) (was_sent u c s) h

Gone-send_if :
    (long : Bool) (url receipt b : String) (q : Mail)
    → Gone (send_if long url b q).1 receipt
    → Gone q receipt
Gone-send_if true url receipt b q h = h
Gone-send_if false url receipt b (w, d, s) h = h

Sent-next : (n : ℕ) (u c : String) (q : Mail) → Sent q u c → Sent (next n q).1 u c
Sent-next n u c ([], d, s) h = h
Sent-next zero u c (m ∷ w, d, s) h = h
Sent-next (suc n) u c (m ∷ w, d, s) h = h

Gone-next : (n : ℕ) (receipt : String) (q : Mail) → Gone (next n q).1 receipt → Gone q receipt
Gone-next n receipt ([], d, s) h = h
Gone-next zero receipt (m ∷ w, d, s) h = h
Gone-next (suc n) receipt (m ∷ w, d, s) h = h

Gone-delete :
    (own receipt : String) (q : Mail)
    → Gone (delete own q).1 receipt
    → (receipt ≡ own) ⊎ Gone q receipt
Gone-delete own receipt (w, d, s) h = elim (Bool-cases (str_eq own receipt)) [
  | inl same ↦ inl (sym (str_eq_sound own receipt same))
  | inr other ↦ inr (subst (λ t. t || contains receipt d ≡ true) other h)
]

abbrev Letters : Result AwsError (List (Message String)) → Type 0
Letters (ok ms) = All (λ m. m.body ≡ m.receipt_handle) ms
Letters (err e) = Unit

next-Letters : (n : ℕ) (q : Mail) → Letters (next n q).0
next-Letters n ([], d, s) = tt
next-Letters zero (m ∷ w, d, s) = tt
next-Letters (suc n) (m ∷ w, d, s) = (refl, tt)

client-IsTraced : IsTraced client Gone Sent (λ receipt. receipt)
client-IsTraced = record {
  sent-send_message = λ url b q q' e. Sent-send_if (str_eq b "too long") url b q q' e;
  keeps-send_message = λ url u b c q h. Sent-send_if_keeps (str_eq b "too long") url u b c q h;
  keeps-delete_message = λ url receipt u c q h. h;
  keeps-receive_message = λ url u n c q h. Sent-next n u c q h;
  deleted-send_message = λ url receipt b q h. Gone-send_if (str_eq b "too long") url receipt b q h;
  deleted-receive_message = λ url receipt n q h. Gone-next n receipt q h;
  deleted-delete_message = λ url own receipt q h. Gone-delete own receipt q h;
  receive-body_of = λ url n q q' ms e. subst Letters (ap (λ p. p.0) e) (next-Letters n q);
}

redriven :
    redrive_loop client "events" "events-dlq" 3 2 start mail
    ≡ some (ok (record { moved = 1; failed = 1 }), ("b" ∷ [], "a" ∷ [], ("events", "a") ∷ []))
unfolding redrive_loop redrive_batch redrive_one
redriven = refl

redrive_loop_keeps_example :
    Gone mail "a" ⊎ Sent ("b" ∷ [], "a" ∷ [], ("events", "a") ∷ []) "events" "a"
redrive_loop_keeps_example =
    redrive_loop_keeps client "events" "events-dlq" Gone Sent (λ receipt. receipt) client-IsTraced
      mail 3 2 start (ok (record { moved = 1; failed = 1 }))
      ("b" ∷ [], "a" ∷ [], ("events", "a") ∷ []) "a" redriven refl
