-- ===== src/Executor/Delivery.antt =====
-- What a `SendMessage` leads to: a delivery owned by the recipient, or one logged rejection owned
-- by the caller.
use a2a_hub.Prelude.{
  true, false, ◌≡◌, inl, inr, refl, subst, Option, none, some, List, [], ◌∷◌, ◌++◌, append_assoc,
  arith, Bool-cases, Option-cases,
}
use a2a_hub.Prelude.Text.{Str, codes, is_empty, strip}
use a2a_hub.Json.{Json, str, Fields, get}
use a2a_hub.Auth.Identity.{is_valid_identity}
use a2a_hub.Auth.Session.{IsTrimmed, strip-IsTrimmed}
use a2a_hub.Auth.Address.{NamesMailbox, is_valid_identity_iff}
use a2a_hub.Executor.{
  Message, RequestContext, rejected, completed, artifact, status, Warning, Run, hub_owner_resolver,
  recipient_in, first_recipient, sources, extract_recipient, ensure_task, route, process, execute,
}

-- A recipient as `extract_recipient` returns it.
abbrev pub IsAddress : Str → Type 0
IsAddress r = (is_empty r ≡ false) × IsTrimmed r

recipient_in-IsAddress : (v : Option Json) {r : Str} → recipient_in v ≡ some r → IsAddress r
unfolding recipient_in
recipient_in-IsAddress (some (str value)) {r} h = elim (Bool-cases (is_empty (strip value))) [
  | inl blank ↦ absurd (ground arith)
  | inr full ↦
      let same : strip value ≡ r = ground arith in
      subst IsAddress same (full, strip-IsTrimmed value)
]
recipient_in-IsAddress none h = cc
recipient_in-IsAddress (some _) h = cc

first_recipient-IsAddress :
    (metas : List Fields) {r : Str} → first_recipient metas ≡ some r → IsAddress r
unfolding first_recipient
first_recipient-IsAddress [] h = cc
first_recipient-IsAddress (meta ∷ metas) {r} h =
    elim (Option-cases (recipient_in (get (codes "recipient") meta))) [
      | inl missing ↦ first_recipient-IsAddress metas (rw (missing, first_recipient) at h)
      | inr (value, here) ↦ recipient_in-IsAddress (get (codes "recipient") meta) (ground arith)
    ]

extract_recipient-IsAddress :
    (context : RequestContext) {r : Str} → extract_recipient context ≡ some r → IsAddress r
unfolding extract_recipient
extract_recipient-IsAddress context h = first_recipient-IsAddress (sources context) h

-- The request carries a message and the address of a mailbox that exists.
pub record IsDeliverable (known : Option (List Str)) (context : RequestContext) : Type 0 where
  pub message : Message
  pub recipient : Str
  pub carried : context.message ≡ some message
  pub addressed : extract_recipient context ≡ some recipient
  pub mailbox : NamesMailbox known recipient

-- From `start` the message and then its completion were emitted, both owned by the recipient and
-- the message stamped with the caller; nothing was logged.
pub record Delivers (message : Message) (recipient : Str) (start after : Run) : Type 0 where
  pub emitted :
      after.queue
      ≡ start.queue
        ++ (record {
          owner = recipient;
          event = artifact message.parts start.call.user_name recipient message.message_id;
        })
          ∷ (record {
            owner = recipient;
            event = status completed (codes "delivered to " ++ recipient);
          })
          ∷ []
  pub logged : after.log ≡ start.log
  pub owned : hub_owner_resolver after.call ≡ recipient

-- From `start` one rejection was emitted under the owner there was, and one line was logged.
pub record Rejects (start after : Run) : Type 0 where
  pub notice : Str
  pub warning : Warning
  pub emitted :
      after.queue
      ≡ start.queue
        ++ (record { owner = hub_owner_resolver start.call; event = status rejected notice }) ∷ []
  pub logged : after.log ≡ start.log ++ warning ∷ []
  pub owned : after.call ≡ start.call

module _ (repr : Str → Str) (known : Option (List Str)) where
  route-Delivers :
      (message : Message) (r : Str) (start : Run)
      → is_empty r ≡ false
      → is_valid_identity r known ≡ true
      → Delivers message r start (route repr known message (some r) start)
  unfolding route hub_owner_resolver
  route-Delivers message r start full valid = rw valid (record {
    emitted = rw full (append_assoc start.queue (_ ∷ []) (_ ∷ []));
    logged = refl;
    owned = rw full;
  })

  route-Rejects :
      (message : Message) (recipient : Option Str) (start : Run)
      → ((r : Str) → recipient ≡ some r → is_valid_identity r known ≡ false)
      → Rejects start (route repr known message recipient start)
  unfolding route
  route-Rejects message none start h = record {
    notice = _;
    warning = _;
    emitted = refl;
    logged = refl;
    owned = refl;
  }
  route-Rejects message (some r) start h =
      rw (h r refl)
        (record { notice = _; warning = _; emitted = refl; logged = refl; owned = refl })

  process-Rejects :
      (address : Option Str) (m : Option Message) (start : Run)
      → ((message : Message) (r : Str)
          → m ≡ some message
          → address ≡ some r
          → is_valid_identity r known ≡ false)
      → Rejects start (process repr known address m start)
  unfolding process
  process-Rejects address none start h = record {
    notice = _;
    warning = _;
    emitted = refl;
    logged = refl;
    owned = refl;
  }
  process-Rejects address (some message) start h =
      route-Rejects message address start (λ r e. h message r refl e)

  process-Delivers :
      (address : Option Str) (m : Option Message) (message : Message) (r : Str) (start : Run)
      → m ≡ some message
      → address ≡ some r
      → is_empty r ≡ false
      → is_valid_identity r known ≡ true
      → Delivers message r start (process repr known address m start)
  unfolding process
  process-Delivers address m message r start carried addressed full valid =
      rw (carried, addressed) (route-Delivers message r start full valid)

  -- A deliverable request, after its task is ensured, is delivered: the message, stamped with the
  -- caller as its sender, and then its completion are emitted under the recipient as owner, and
  -- nothing is logged.
  pub execute-Delivers :
      (context : RequestContext) (run : Run) (d : IsDeliverable known context)
      → Delivers d.message d.recipient (ensure_task context run) (execute repr known context run)
  unfolding execute
  execute-Delivers context run d =
      let (full, trimmed) = extract_recipient-IsAddress context d.addressed in
      process-Delivers (extract_recipient context) context.message d.message d.recipient
        (ensure_task context run) d.carried d.addressed full
        ((is_valid_identity_iff known d.recipient trimmed).1 d.mailbox)

  -- Any request that is not deliverable, after its task is ensured, is rejected: one rejection is
  -- emitted under the owner there was, one line is logged, and the call's context stays as it was.
  pub execute-Rejects :
      (context : RequestContext) (run : Run)
      → ¬ IsDeliverable known context
      → Rejects (ensure_task context run) (execute repr known context run)
  unfolding execute
  execute-Rejects context run n =
      process-Rejects (extract_recipient context) context.message (ensure_task context run)
        λ message r carried addressed. elim (Bool-cases (is_valid_identity r known)) [
          | inl valid ↦ absurd (
              n (record {
                message = message;
                recipient = r;
                carried = carried;
                addressed = addressed;
                mailbox =
                    (is_valid_identity_iff known r
                        (extract_recipient-IsAddress context addressed).1).0
                      valid;
              }))
          | inr bad ↦ bad
        ]
