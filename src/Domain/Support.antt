-- ===== src/Domain/Support.antt =====
-- `SupportService` of app/domain/support/service.py, with the repository in app/db/repositories/support.py and the models in
-- app/db/models/support.py. The title of a notification is left out.
pub mod Stamps
use professional_bot.Prelude.{
  ℕ, ◌+◌, Bool, true, false, not, List, [], ◌∷◌, ◌++◌, Option, none, some, Result, ok, raise_if,
  ◌>>◌, ◌==◌, nat_eq, map, take, length, if◌then◌else◌, permission_denied, not_found,
}
use professional_bot.Prelude.Text.{Text, codes, or_empty, text_or}
use professional_bot.Domain.Enums.TicketStatus
use professional_bot.Domain.Enums.TicketStatus.{TicketStatus, ticket_status_eq}
use professional_bot.Domain.Enums.TicketCategory
use professional_bot.Domain.Enums.TicketCategory.{TicketCategory}
use professional_bot.Domain.Enums.TicketPriority
use professional_bot.Domain.Enums.TicketPriority.{TicketPriority}
use professional_bot.Domain.Orders.Creation.{first_free}

pub record SupportTicket : Type 0 where
  pub id : ℕ
  pub reference : Text
  pub user_id : ℕ
  pub category : TicketCategory
  pub priority : TicketPriority
  pub status : TicketStatus
  pub subject : Text
  pub order_id : Option ℕ
  pub assigned_to_id : Option ℕ
  pub assigned_at : Option ℕ
  pub resolved_at : Option ℕ
  pub closed_at : Option ℕ
  pub last_message_at : Option ℕ

pub record SupportMessage : Type 0 where
  pub ticket_id : ℕ
  pub author_id : ℕ
  pub body : Text
  pub is_staff : Bool
  pub is_internal : Bool

-- `Notification`, of the kind SUPPORT.
pub record Notification : Type 0 where
  pub user_id : ℕ
  pub body : Text
  pub ticket_id : ℕ

-- A ticket, and what is written around it.
pub record Conversation : Type 0 where
  pub ticket : SupportTicket
  pub messages : List SupportMessage
  pub notifications : List Notification

-- `CATEGORY_PRIORITY`
unfoldable pub category_priority : TicketCategory → TicketPriority
category_priority TicketCategory.payment = TicketPriority.high
category_priority TicketCategory.order = TicketPriority.normal
category_priority TicketCategory.product = TicketPriority.normal
category_priority TicketCategory.technical = TicketPriority.normal
category_priority TicketCategory.other = TicketPriority.low

-- `add_message`
unfoldable pub add_message : ℕ → ℕ → Text → Bool → Bool → Conversation → Conversation
add_message now author_id body is_staff is_internal c = record c {
  messages =
      c.messages
      ++ record {
        ticket_id = c.ticket.id;
        author_id = author_id;
        body = body;
        is_staff = is_staff;
        is_internal = is_internal;
      }
        ∷ [];
  ticket = record (c.ticket) { last_message_at = some now };
}

-- `_next_reference`, given the references there are; `fallback` is the one with a random suffix.
unfoldable pub next_ticket_reference : Text → List Text → Text
next_ticket_reference fallback references =
    first_free 50 (codes "TK") (1000 + (length references + 1)) fallback references

abbrev pub new_ticket : ℕ → ℕ → Text → ℕ → TicketCategory → Text → Option ℕ → SupportTicket
new_ticket row now reference user_id category subject order_id = record {
  id = row;
  reference = reference;
  user_id = user_id;
  category = category;
  priority = category_priority category;
  status = TicketStatus.opened;
  subject = take 160 subject;
  order_id = order_id;
  assigned_to_id = none;
  assigned_at = none;
  resolved_at = none;
  closed_at = none;
  last_message_at = some now;
}

-- `create_ticket`; `row` is the new id.
unfoldable pub create_ticket :
    ℕ → ℕ → Text → List Text → ℕ → TicketCategory → Text → Option ℕ → Option Text → Conversation
create_ticket row now fallback references user_id category body order_id subject =
    add_message now user_id body false false (record {
      ticket =
          new_ticket row now (next_ticket_reference fallback references) user_id category
            (text_or (or_empty subject) body) order_id;
      messages = [];
      notifications = [];
    })

abbrev pub with_status : TicketStatus → Conversation → Conversation
with_status status c = record c { ticket = record (c.ticket) { status = status } }

-- What a reply of the customer makes of the status that the ticket had.
unfoldable pub answered : Conversation → Conversation
answered c =
    if c.ticket.status == TicketStatus.waiting_user
    then with_status TicketStatus.assigned c
    else if c.ticket.status == TicketStatus.resolved
    then record c {
      ticket = record (c.ticket) { status = TicketStatus.opened; resolved_at = none };
    }
    else c

unfoldable pub customer_reply : ℕ → ℕ → Text → Conversation → Result Conversation
customer_reply now user_id body c =
    raise_if (not (c.ticket.user_id == user_id)) permission_denied
    >> raise_if (c.ticket.status == TicketStatus.closed) not_found
    >> ok (answered (add_message now user_id body false false c))

abbrev pub notify : Text → Conversation → Conversation
notify body c = record c {
  notifications =
      c.notifications
      ++ record { user_id = c.ticket.user_id; body = body; ticket_id = c.ticket.id } ∷ [];
}

unfoldable pub staff_reply : ℕ → ℕ → Text → Bool → Conversation → Conversation
staff_reply now staff_id body internal c =
    let written = add_message now staff_id body true internal c in
    if not internal
    then notify (take 400 body) (with_status TicketStatus.waiting_user written)
    else written

unfoldable pub assign : ℕ → ℕ → Conversation → Conversation
assign now staff_id c =
    let taken = record c {
      ticket = record (c.ticket) { assigned_to_id = some staff_id; assigned_at = some now };
    } in
    if c.ticket.status == TicketStatus.opened
    then with_status TicketStatus.assigned taken
    else taken

unfoldable pub resolve : ℕ → Conversation → Conversation
resolve now c = notify (codes "Your support ticket has been resolved.") (record c {
  ticket = record (c.ticket) { status = TicketStatus.resolved; resolved_at = some now };
})

unfoldable pub close_ticket : ℕ → Conversation → Conversation
close_ticket now c = record c {
  ticket = record (c.ticket) { status = TicketStatus.closed; closed_at = some now };
}
