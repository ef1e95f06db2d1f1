-- ===== src/Examples/Supported.antt =====
-- A ticket that is answered, resolved, and taken up again by the customer.
use professional_bot.Prelude.{◌≡◌, refl, [], none, ok, false}
use professional_bot.Prelude.Text.{codes}
use professional_bot.Domain.Enums.TicketCategory
use professional_bot.Domain.Enums.TicketPriority
use professional_bot.Domain.Enums.TicketStatus
use professional_bot.Domain.Support.{
  Conversation, create_ticket, category_priority, add_message, customer_reply, answered,
  staff_reply, resolve,
}
use professional_bot.Domain.Support.Stamps
use professional_bot.Domain.Support.Stamps.{IsSound, Reaches-IsSound}

abbrev asked : Conversation
asked =
    create_ticket 1 100 (codes "TK-X") [] 7 TicketCategory.payment (codes "Where is it?") none none

abbrev solved : Conversation
solved = resolve 300 (staff_reply 200 8 (codes "It is here.") false asked)

abbrev doubted : Conversation
doubted = answered (add_message 400 7 (codes "It is not.") false false solved)

doubt : customer_reply 400 7 (codes "It is not.") solved ≡ ok doubted
unfolding customer_reply resolve staff_reply create_ticket add_message
doubt = refl

is_urgent : asked.ticket.priority ≡ TicketPriority.high
unfolding create_ticket add_message category_priority
is_urgent = refl

is_open_again : doubted.ticket.status ≡ TicketStatus.opened
unfolding answered resolve staff_reply create_ticket add_message
is_open_again = refl

Reaches-IsSound_example : IsSound 7 doubted
Reaches-IsSound_example = Reaches-IsSound 7 doubted (
    Stamps.Reaches.replied 400 7 (codes "It is not.")
      (Stamps.Reaches.solved 300 (
        Stamps.Reaches.answered_by 200 8 (codes "It is here.") false (
          Stamps.Reaches.asked 1 100 (codes "TK-X") [] TicketCategory.payment (codes "Where is it?")
            none none)))
      doubt)
