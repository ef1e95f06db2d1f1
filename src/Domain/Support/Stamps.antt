-- ===== src/Domain/Support/Stamps.antt =====
-- The conversations that app/domain/support/service.py reaches.
use professional_bot.Prelude.{
  ℕ, ◌≡◌, refl, sym, subst, arith, Bool, true, false, not, List, [], ◌∷◌, ◌++◌, All, Option, ok,
  ◌==◌, nat_eq, is_some, if◌then◌else◌, Bool-cases, inl, inr, eq_of_beq, beq_of_eq, beq_refl, ◌∙◌,
  raise_if-eq-ok, >>=-eq-ok, ok-injective, raise_if, ◌>>◌, permission_denied, not_found,
}
use professional_bot.Prelude.Text.{Text}
use professional_bot.Domain.Enums.TicketStatus.{TicketStatus, ticket_status_eq}
use professional_bot.Domain.Enums.TicketCategory.{TicketCategory}
use professional_bot.Domain.Support.{
  Conversation, SupportMessage, create_ticket, customer_reply, answered, staff_reply, assign,
  resolve, close_ticket, add_message,
}

-- The conversations that begin with a ticket of the user and go on with operations that return.
pub data Reaches (user_id : ℕ) : Conversation → Type 0 where
  asked :
      (row now : ℕ) (fallback : Text) (references : List Text) (category : TicketCategory)
      (body : Text) (order_id : Option ℕ) (subject : Option Text)
      → Reaches user_id
          (create_ticket row now fallback references user_id category body order_id subject)
  replied :
      {c d : Conversation} (now author_id : ℕ) (body : Text)
      → Reaches user_id c
      → customer_reply now author_id body c ≡ ok d
      → Reaches user_id d
  answered_by :
      {c : Conversation} (now staff_id : ℕ) (body : Text) (internal : Bool)
      → Reaches user_id c
      → Reaches user_id (staff_reply now staff_id body internal c)
  taken :
      {c : Conversation} (now staff_id : ℕ)
      → Reaches user_id c
      → Reaches user_id (assign now staff_id c)
  solved : {c : Conversation} (now : ℕ) → Reaches user_id c → Reaches user_id (resolve now c)
  shut : {c : Conversation} (now : ℕ) → Reaches user_id c → Reaches user_id (close_ticket now c)

-- The stamps fit the status.
unfoldable pub stamps_fit : TicketStatus → Option ℕ → Option ℕ → Bool
stamps_fit TicketStatus.opened resolved_at closed_at = not (is_some resolved_at)
stamps_fit TicketStatus.resolved resolved_at closed_at = is_some resolved_at
stamps_fit TicketStatus.closed resolved_at closed_at = is_some closed_at
stamps_fit _ resolved_at closed_at = true

-- A message of the customer is one of the user, and no note of the staff.
abbrev pub fits_author : ℕ → SupportMessage → Bool
fits_author user_id m =
    if m.is_staff then true else (if m.is_internal then false else m.author_id == user_id)

pub record IsSound (user_id : ℕ) (c : Conversation) : Type 0 where
  pub owner : c.ticket.user_id ≡ user_id
  pub stamps : stamps_fit c.ticket.status c.ticket.resolved_at c.ticket.closed_at ≡ true
  pub authors : All (λ m. fits_author user_id m ≡ true) c.messages

All-append :
    (p : SupportMessage → Bool) (ms : List SupportMessage) (m : SupportMessage)
    → All (λ x. p x ≡ true) ms
    → p m ≡ true
    → All (λ x. p x ≡ true) (ms ++ m ∷ [])
All-append p [] m all h = (h, tt)
All-append p (x ∷ ms) m (here, all) h = (here, All-append p ms m all h)

-- A message keeps what is true of the ticket.
add_message-IsSound :
    (user_id now author_id : ℕ) (body : Text) (is_staff is_internal : Bool) (c : Conversation)
    → fits_author user_id (record {
      ticket_id = c.ticket.id;
      author_id = author_id;
      body = body;
      is_staff = is_staff;
      is_internal = is_internal;
    })
      ≡ true
    → IsSound user_id c
    → IsSound user_id (add_message now author_id body is_staff is_internal c)
unfolding add_message
add_message-IsSound user_id now author_id body is_staff is_internal c fits sound = record {
  owner = sound.owner;
  stamps = sound.stamps;
  authors = All-append (fits_author user_id) c.messages _ sound.authors fits;
}

create_ticket-IsSound :
    (user_id row now : ℕ) (fallback : Text) (references : List Text) (category : TicketCategory)
    (body : Text) (order_id : Option ℕ) (subject : Option Text)
    → IsSound user_id
        (create_ticket row now fallback references user_id category body order_id subject)
unfolding create_ticket stamps_fit
create_ticket-IsSound user_id row now fallback references category body order_id subject =
    add_message-IsSound user_id now user_id body false false _ (beq_refl user_id)
      (record { owner = refl; stamps = refl; authors = tt })

answered-IsSound :
    (user_id : ℕ) (c : Conversation) → IsSound user_id c → IsSound user_id (answered c)
unfolding answered stamps_fit
answered-IsSound user_id c sound =
    elim (Bool-cases (c.ticket.status == TicketStatus.waiting_user)) [
      | inl waiting ↦
          rw waiting (record { owner = sound.owner; stamps = refl; authors = sound.authors })
      | inr other ↦ elim (Bool-cases (c.ticket.status == TicketStatus.resolved)) [
        | inl settled ↦
            rw (other, settled)
              (record { owner = sound.owner; stamps = refl; authors = sound.authors })
        | inr neither ↦ rw (other, neither) sound
      ]
    ]

customer_reply-IsSound :
    (user_id now author_id : ℕ) (body : Text) (c d : Conversation)
    → IsSound user_id c
    → customer_reply now author_id body c ≡ ok d
    → IsSound user_id d
unfolding customer_reply
customer_reply-IsSound user_id now author_id body c d sound h =
    let foreign = not (c.ticket.user_id == author_id) in
    let ended = c.ticket.status == TicketStatus.closed in
    let (_, e, g) =
      >>=-eq-ok (raise_if foreign permission_denied >> raise_if ended not_found) _ h in
    let (_, e', _) = >>=-eq-ok (raise_if foreign permission_denied) _ e in
    let own = raise_if-eq-ok foreign permission_denied e' in
    let same = eq_of_beq c.ticket.user_id author_id (ground (arith, own)) in
    subst (IsSound user_id) (ok-injective g) (
      answered-IsSound user_id _ (
        add_message-IsSound user_id now author_id body false false c
          (beq_of_eq author_id user_id (sym same ∙ sound.owner)) sound))

staff_reply-IsSound :
    (user_id now staff_id : ℕ) (body : Text) (internal : Bool) (c : Conversation)
    → IsSound user_id c
    → IsSound user_id (staff_reply now staff_id body internal c)
unfolding staff_reply stamps_fit
staff_reply-IsSound user_id now staff_id body true c sound =
    add_message-IsSound user_id now staff_id body true true c refl sound
staff_reply-IsSound user_id now staff_id body false c sound =
    let written = add_message-IsSound user_id now staff_id body true false c refl sound in
    record { owner = written.owner; stamps = refl; authors = written.authors }

assign-IsSound :
    (user_id now staff_id : ℕ) (c : Conversation)
    → IsSound user_id c
    → IsSound user_id (assign now staff_id c)
unfolding assign stamps_fit
assign-IsSound user_id now staff_id c sound =
    elim (Bool-cases (c.ticket.status == TicketStatus.opened)) [
      | inl fresh ↦
          rw fresh (record { owner = sound.owner; stamps = refl; authors = sound.authors })
      | inr other ↦
          rw other (record { owner = sound.owner; stamps = sound.stamps; authors = sound.authors })
    ]

-- In every conversation that begins with a ticket of a user, the ticket stays the user's; one that is OPEN has no time of
-- resolution, one that is RESOLVED has one, and one that is CLOSED has a time of closing; and every message that is not the
-- staff's is by the user, and is no internal note.
pub Reaches-IsSound : (user_id : ℕ) (c : Conversation) → Reaches user_id c → IsSound user_id c
unfolding resolve close_ticket stamps_fit
Reaches-IsSound user_id c
      (Reaches.asked row now fallback references category body order_id subject) =
    create_ticket-IsSound user_id row now fallback references category body order_id subject
Reaches-IsSound user_id c (Reaches.replied {c = b} now author_id body rest h) =
    customer_reply-IsSound user_id now author_id body b c (Reaches-IsSound user_id b rest) h
Reaches-IsSound user_id c (Reaches.answered_by {c = b} now staff_id body internal rest) =
    staff_reply-IsSound user_id now staff_id body internal b (Reaches-IsSound user_id b rest)
Reaches-IsSound user_id c (Reaches.taken {c = b} now staff_id rest) =
    assign-IsSound user_id now staff_id b (Reaches-IsSound user_id b rest)
Reaches-IsSound user_id c (Reaches.solved {c = b} now rest) =
    let sound = Reaches-IsSound user_id b rest in
    record { owner = sound.owner; stamps = refl; authors = sound.authors }
Reaches-IsSound user_id c (Reaches.shut {c = b} now rest) =
    let sound = Reaches-IsSound user_id b rest in
    record { owner = sound.owner; stamps = refl; authors = sound.authors }
