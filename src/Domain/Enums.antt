-- ===== src/Domain/Enums.antt =====
-- app/domain/enums.py: the enumerations that the modelled services share.
pub mod OrderStatus
pub mod PaymentStatus
pub mod VerificationOutcome
pub mod NetworkCode
pub mod ProviderCode
pub mod RefundStatus
pub mod LedgerEntryType
pub mod DeliveryType
pub mod DeliveryStatus
pub mod ProductStatus
pub mod ReferralStatus
pub mod RoleName
pub mod ResellerStatus
pub mod ApiScope
pub mod WebhookEvent
pub mod WebhookDeliveryStatus
pub mod TicketStatus
pub mod TicketCategory
pub mod TicketPriority
