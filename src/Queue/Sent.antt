-- ===== src/Queue/Sent.antt =====
-- When `_send` of app/core/queue.py has put a body on the queue of a name.
use commerceops_ai_platform.Base.{
  ◌≡◌, sym, ap, ◌∙◌, inl, inr, some, Option-cases, String, List, [], Result, ok, err, >>=-eq-ok,
  arith,
}
use commerceops_ai_platform.Queue.{
  Sqs, Queues, AwsError, cached_url, remember, resolve_queue_url, on_sqs, send_to,
}

-- The documented behaviour of SQS: the URL that it gives for a name is that queue's, a body that it
-- accepts has been sent to the URL's queue, and a deletion does not take that back.
pub record IsSending {Q B : Type 0} (client : Sqs Q B) (names : String → String → Type 0)
    (sent : Q → String → B → Type 0) : Type 0 where
  pub get_queue_url-names :
      (name url : String) (q q' : Q) → client.get_queue_url name q ≡ (ok url, q') → names name url
  pub send_message-sends :
      (url : String) (b : B) (q q' : Q) → client.send_message url b q ≡ (ok tt, q') → sent q' url b
  pub sent-delete_message :
      (own receipt url : String) (b : B) (q : Q)
      → sent q url b
      → sent (client.delete_message own receipt q).1 url b

-- Each URL that is kept is its queue's.
abbrev pub IsKnown : (String → String → Type 0) → List (String × String) → Type 0
IsKnown names urls = (name url : String) → cached_url name urls ≡ some url → names name url

pub nil-IsKnown : (names : String → String → Type 0) → IsKnown names []
unfolding cached_url
nil-IsKnown names name url e = absurd (ground (arith, e))

module _ {Q B : Type 0} (client : Sqs Q B) (names : String → String → Type 0)
    (sent : Q → String → B → Type 0) (laws : IsSending client names sent) where
  -- The body has been sent to the queue with the name.
  abbrev pub IsSentTo : String → B → Q → Type 0
  IsSentTo name body q = (url : String) × (names name url × sent q url body)

  resolve_queue_url-names :
      (name url : String) (s s' : Queues Q)
      → IsKnown names s.url_cache
      → resolve_queue_url client name s ≡ (ok url, s')
      → names name url
  unfolding resolve_queue_url
  resolve_queue_url-names name url s s' known e =
      elim (Option-cases (cached_url name s.url_cache)) [
        | inr (u, hit) ↦ known name url (ground (arith, hit, rw (hit, resolve_queue_url) at e))
        | inl miss ↦
            fetched (client.get_queue_url name s.sqs).0 (client.get_queue_url name s.sqs).1
              (λ i. client.get_queue_url name s.sqs) (rw (miss, resolve_queue_url) at e)
      ]
    where
      fetched :
          (o : Result AwsError String) (q' : Q)
          → client.get_queue_url name s.sqs ≡ (o, q')
          → remember client name s.url_cache (client.get_queue_url name s.sqs) ≡ (ok url, s')
          → names name url
      fetched (ok u) q' f h =
          let g = ap (remember client name s.url_cache) (sym f) ∙ h in
          laws.get_queue_url-names name url s.sqs q' (f ∙ ground (arith, g))
      fetched (err x) q' f h =
          absurd (ground (arith, ap (remember client name s.url_cache) (sym f) ∙ h))

  -- A send that returns has put the body on the queue.
  pub send_to-IsSentTo :
      (name : String) (body : B) (s s' : Queues Q)
      → IsKnown names s.url_cache
      → send_to client name body s ≡ (ok tt, s')
      → IsSentTo name body s'.sqs
  unfolding send_to
  send_to-IsSentTo name body s s' known e =
      let (url, m, found, done) =
        >>=-eq-ok (resolve_queue_url client name)
          (λ url. on_sqs client (client.send_message url body)) s tt s' e in
      (
        url,
        (
          resolve_queue_url-names name url s m known found,
          laws.send_message-sends url body m.sqs s'.sqs (λ i. ((done i).0, (done i).1.sqs)),
        ),
      )
