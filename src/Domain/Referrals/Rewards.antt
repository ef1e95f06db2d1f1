-- ===== src/Domain/Referrals/Rewards.antt =====
-- Attributions and rewards of app/domain/referrals/service.py, the first time and again.
use professional_bot.Prelude.{
  ℕ, ◌≡◌, ◌≢◌, refl, sym, ◌∙◌, ap, subst, false, List, [], ◌∷◌, ◌++◌, In, none, some, arith,
  Bool-cases, Option-cases, inl, inr, ◌==◌, nat_eq, nat_eqb_iff, is_some,
}
use professional_bot.Prelude.Int.{pos, ◌<ℤ◌, leb_ℤ}
use professional_bot.Prelude.Text.{Text, text_eq, is_empty, strip, upper}
use professional_bot.Core.Money.{Decimal}
use professional_bot.Domain.Enums.ReferralStatus
use professional_bot.Domain.Enums.ReferralStatus.{referral_status_eq}
use professional_bot.Domain.Orders.Lifecycle.{Order}
use professional_bot.Domain.Users.{User}
use professional_bot.Domain.Referrals.{
  Referral, Program, get_for_user, get_by_referral_code, new_referral, attribute_to, attribute,
  reward_of, set_referral, rewarded_referral, qualify, qualify_order,
}

some_injective {ℓ} : {A : Type ℓ} {a b : A} → some a ≡ some b → a ≡ b
some_injective h = cc

get_for_user-In :
    (i : ℕ) (rs : List Referral) (r : Referral)
    → get_for_user i rs ≡ some r
    → In r rs × (r.referred_user_id ≡ i)
unfolding get_for_user
get_for_user-In i [] r h = absurd (cc h)
get_for_user-In i (x ∷ rs) r h = elim (Bool-cases (x.referred_user_id == i)) [
  | inl hit ↦
      let same = some_injective (rw hit at h) in
      (
        inl (sym same),
        ap (λ y. y.referred_user_id) (sym same) ∙ (nat_eqb_iff x.referred_user_id i).0 hit,
      )
  | inr miss ↦ let (m, e) = get_for_user-In i rs r (rw miss at h) in (inr m, e)
]

-- Writing the row that a lookup found makes the lookup find what was written.
get_for_user-set_referral :
    (i : ℕ) (old r : Referral) (rs : List Referral)
    → get_for_user i rs ≡ some old
    → r.id ≡ old.id
    → r.referred_user_id ≡ i
    → get_for_user i (set_referral r rs) ≡ some r
unfolding get_for_user set_referral
get_for_user-set_referral i old r [] h same of_user = absurd (cc h)
get_for_user-set_referral i old r (x ∷ rs) h same of_user =
    let mine = (nat_eqb_iff r.referred_user_id i).1 of_user in
    elim (Bool-cases (x.id == r.id)) [
      | inl hit ↦ rw (hit, mine) refl
      | inr miss ↦ elim (Bool-cases (x.referred_user_id == i)) [
        | inl found ↦
            let is = some_injective (rw found at h) in
            absurd (cc (miss, (nat_eqb_iff x.id r.id).1 (ap (λ y. y.id) is ∙ sym same)))
        | inr other ↦
            rw (miss, other) (get_for_user-set_referral i old r rs (rw other at h) same of_user)
      ]
    ]

-- What a reward shows of the order, the referral before it, and the programme after it.
pub record Rewarded (percent : Decimal) (order : Order) (program : Program) (r : Referral)
    (program' : Program) : Type 0 where
  pub user : ℕ
  pub of_user : order.user_id ≡ some user
  pub old : Referral
  pub found : get_for_user user program.referrals ≡ some old
  pub was_pending : old.status ≡ ReferralStatus.pending
  pub positive : pos 0 <ℤ reward_of order.total percent
  pub amount : r.reward_amount ≡ reward_of order.total percent
  pub same_parties : (r.id ≡ old.id) × (r.referrer_id ≡ old.referrer_id)
  pub is_rewarded : r.status ≡ ReferralStatus.rewarded
  pub stored : get_for_user user program'.referrals ≡ some r

pay_out-Rewarded :
    (now : ℕ) (percent : Decimal) (order : Order) (user : ℕ) (old : Referral) (program : Program)
    (r : Referral) (program' : Program)
    → order.user_id ≡ some user
    → get_for_user user program.referrals ≡ some old
    → qualify now percent order (some old) program ≡ (some r, program')
    → Rewarded percent order program r program'
unfolding qualify
pay_out-Rewarded now percent order user old program r program' of_user found h =
    let reward = reward_of order.total percent in
    let paid = rewarded_referral now order reward old in
    elim (Bool-cases (old.status == ReferralStatus.pending)) [
      | inr done ↦ absurd (cc (ap (λ x. x.0) (rw done at h)))
      | inl waiting ↦ elim (Bool-cases (leb_ℤ reward (pos 0))) [
        | inl void ↦ absurd (cc (ap (λ x. x.0) (rw (waiting, void) at h)))
        | inr real ↦
            let g = rw (waiting, real) at h in
            subst (λ x. Rewarded percent order program x program')
              (some_injective (ap (λ x. x.0) g))
              (subst (Rewarded percent order program paid) (ap (λ x. x.1) g) (record {
                user = user;
                of_user = of_user;
                old = old;
                found = found;
                was_pending =
                    (referral_status_eq.beq_iff old.status ReferralStatus.pending).0 waiting;
                positive = ground arith;
                amount = refl;
                same_parties = (refl, refl);
                is_rewarded = refl;
                stored =
                    get_for_user-set_referral user old paid program.referrals found refl
                      (get_for_user-In user program.referrals old found).1;
              }))
      ]
    ]

-- A reward is granted for an order of a referred user whose referral was pending, is positive, and leaves
-- that referral, between the same parties, rewarded with the amount.
pub qualify_order-Rewarded :
    (now : ℕ) (percent : Decimal) (order : Order) (program : Program) (r : Referral)
    (program' : Program)
    → qualify_order now percent order program ≡ (some r, program')
    → Rewarded percent order program r program'
unfolding qualify_order qualify
qualify_order-Rewarded now percent order program r program' h = elim (Option-cases order.user_id) [
  | inl nobody ↦ absurd (cc (ap (λ x. x.0) (rw nobody at h)))
  | inr (user, somebody) ↦ elim (Option-cases (get_for_user user program.referrals)) [
    | inl unreferred ↦
        absurd (no_referral now percent order program r program' (rw (somebody, unreferred) at h))
    | inr (old, found) ↦
        pay_out-Rewarded now percent order user old program r program' somebody found
          (rw (somebody, found) at h)
  ]
]
  where
    no_referral :
        (now : ℕ) (percent : Decimal) (order : Order) (program : Program) (r : Referral)
        (program' : Program)
        → qualify now percent order none program ≡ (some r, program')
        → ⊥
    no_referral now percent order program r program' h = cc (ap (λ x. x.0) h)

-- After a reward for a user, no order of that user earns another, whichever it is and whatever the
-- percentage: nothing is returned, and nothing changes.
pub qualify_order_again :
    (now : ℕ) (percent : Decimal) (order : Order) (program : Program) (r : Referral)
    (program' : Program) (now' : ℕ) (percent' : Decimal) (order' : Order)
    → qualify_order now percent order program ≡ (some r, program')
    → order'.user_id ≡ order.user_id
    → qualify_order now' percent' order' program' ≡ (none, program')
unfolding qualify_order qualify
qualify_order_again now percent order program r program' now' percent' order' h same =
    let rewarded = qualify_order-Rewarded now percent order program r program' h in
    rw (same ∙ rewarded.of_user, rewarded.stored) (rw rewarded.is_rewarded refl)

-- What an attribution shows.
pub record Attributed (new_user : User) (code : Text) (program : Program) (r : Referral)
    (program' : Program) : Type 0 where
  pub referrer : User
  pub named : get_by_referral_code (upper (strip code)) program.users ≡ some referrer
  pub parties : (r.referrer_id ≡ referrer.id) × (r.referred_user_id ≡ new_user.id)
  pub not_self : r.referrer_id ≢ r.referred_user_id
  pub unreferred :
      (is_some new_user.referred_by_id ≡ false)
      × (get_for_user new_user.id program.referrals ≡ none)
  pub waits : r.status ≡ ReferralStatus.pending
  pub appended : program'.referrals ≡ program.referrals ++ r ∷ []

attribute_to-Attributed :
    (row : ℕ) (new_user : User) (code : Text) (referrer : User) (program : Program) (r : Referral)
    (program' : Program)
    → get_by_referral_code (upper (strip code)) program.users ≡ some referrer
    → attribute_to row new_user (some referrer) program ≡ (some r, program')
    → Attributed new_user code program r program'
unfolding attribute_to
attribute_to-Attributed row u code referrer p r p' named h =
    let made = new_referral row referrer.id u.id in
    elim (Bool-cases (referrer.id == u.id)) [
      | inl self ↦ absurd (cc (ap (λ x. x.0) (rw self at h)))
      | inr other ↦ elim (Bool-cases (is_some u.referred_by_id)) [
        | inl before ↦ absurd (cc (ap (λ x. x.0) (rw (other, before) at h)))
        | inr fresh ↦ elim (Option-cases (get_for_user u.id p.referrals)) [
          | inr (old, found) ↦ absurd (cc (ap (λ x. x.0) (rw (other, fresh, found) at h)))
          | inl unknown ↦
              let g = rw (other, fresh, unknown) at h in
              subst (λ x. Attributed u code p x p') (some_injective (ap (λ x. x.0) g))
                (subst (Attributed u code p made) (ap (λ x. x.1) g) (record {
                  referrer = referrer;
                  named = named;
                  parties = (refl, refl);
                  not_self = λ same. cc (other, (nat_eqb_iff referrer.id u.id).1 same);
                  unreferred = (fresh, unknown);
                  waits = refl;
                  appended = refl;
                }))
        ]
      ]
    ]

-- An attribution is to the user whose code was given, never to the new user, who was not referred
-- before; it adds one referral, which is pending.
pub attribute-Attributed :
    (row : ℕ) (new_user : User) (code : Text) (program : Program) (r : Referral)
    (program' : Program)
    → attribute row new_user code program ≡ (some r, program')
    → Attributed new_user code program r program'
unfolding attribute attribute_to
attribute-Attributed row u code p r p' h = elim (Bool-cases (is_empty (upper (strip code)))) [
  | inl blank ↦ absurd (cc (ap (λ x. x.0) (rw blank at h)))
  | inr text ↦ elim (Option-cases (get_by_referral_code (upper (strip code)) p.users)) [
    | inl unknown ↦ absurd (unknown_code row u p r p' (rw (text, unknown) at h))
    | inr (referrer, named) ↦
        attribute_to-Attributed row u code referrer p r p' named (rw (text, named) at h)
  ]
]
  where
    unknown_code :
        (row : ℕ) (u : User) (p : Program) (r : Referral) (p' : Program)
        → attribute_to row u none p ≡ (some r, p')
        → ⊥
    unknown_code row u p r p' h = cc (ap (λ x. x.0) h)
