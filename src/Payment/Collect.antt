-- ===== src/Payment/Collect.antt =====
-- `collect_payment` as a whole: what has happened when it resolves, and when it throws.
use nfc_payment_api.Prelude.{◌≡◌, refl, true, Option, none, some, ◌⊎◌, ℕ, arith, ap, sym, ◌∙◌}
use nfc_payment_api.Prelude.Int.{ℤ, ◌≤ℤ◌, naira}
use nfc_payment_api.Schema.{Card, Wallet}
use nfc_payment_api.External.{Env}
use nfc_payment_api.Exec.{Message, ok, err, http, ◌>>=◌}
use nfc_payment_api.Exec.Laws.{bind-eq-ok, try_catch-eq-ok}
use nfc_payment_api.Response.{Response}
use nfc_payment_api.World.{World, create_transaction}
use nfc_payment_api.Payment.{
  Entity, entity_id, CreatePayment, collector, move_money, record_payment, settle, charge_card,
  collect, collect_payment,
}
use nfc_payment_api.Payment.Guards.{approve_keeps, IsApproved, approve-IsApproved}
use nfc_payment_api.Payment.Moves.{move_money_atomic}

module _ (env : Env) where
  pub collector_keeps : (e : Entity) (amount : ℤ) (w : World env) → (collector env e amount w).1 ≡ w
  unfolding collector ◌>>=◌
  collector_keeps (Entity.station s) amount w = ground arith
  collector_keeps (Entity.user u) amount w = ground arith

  settle_http :
      (e : Entity) (wallet : Wallet) (amount : ℤ) (approved : Card × Option Wallet) (w : World env)
      (s : ℕ) (m : Message)
      → (settle env e wallet amount approved w).0 ≡ err (http s m)
      → (settle env e wallet amount approved w).1 ≡ w
  unfolding settle record_payment create_transaction ◌>>=◌
  settle_http e wallet amount (c, uw) w s m h = grind (arith, move_money_atomic)

  charge_card_http :
      (e : Entity) (dto : CreatePayment) (target : Option Wallet × ℤ) (w : World env) (s : ℕ)
      (m : Message)
      → (charge_card env e dto target w).0 ≡ err (http s m)
      → (charge_card env e dto target w).1 ≡ w
  unfolding charge_card ◌>>=◌
  charge_card_http e dto (none, amount) w s m h = refl
  charge_card_http e dto (some wallet, amount) w s m h =
      grind (arith, approve_keeps env dto amount w, settle_http)

  -- When a collection is refused with a status other than 503, nothing has been written.
  pub collect_payment_refused :
      (e : Entity) (dto : CreatePayment) (w : World env) (s : ℕ) (m : Message)
      → (collect_payment env e dto w).0 ≡ err (http s m)
      → (s ≡ 503) ⊎ ((collect_payment env e dto w).1 ≡ w)
  unfolding collect_payment ◌>>=◌
  collect_payment_refused e dto w s m h =
      grind (arith, collector_keeps e dto.amount w, charge_card_http)

  -- The steps of a collection that answered with success.
  pub record IsCollected (e : Entity) (dto : CreatePayment) (w : World env) (r : Response)
      (w' : World env) : Type 0 where
    pub wallet : Wallet
    pub amount : ℤ
    pub card : Card
    pub payer : Option Wallet
    pub limited : dto.amount ≤ℤ naira 15000
    pub target : (collector env e dto.amount w).0 ≡ ok (some wallet, amount)
    pub approved : IsApproved env dto amount w card payer
    pub moved : (move_money env (entity_id e) card payer wallet amount w).0 ≡ ok tt
    pub recorded :
        record_payment env e card payer wallet amount
          (move_money env (entity_id e) card payer wallet amount w).1
        ≡ (ok r, w')

  settle-eq-ok :
      (e : Entity) (wallet : Wallet) (amount : ℤ) (c : Card) (uw : Option Wallet) (w : World env)
      (r : Response) (w' : World env)
      → settle env e wallet amount (c, uw) w ≡ (ok r, w')
      → ((move_money env (entity_id e) c uw wallet amount w).0 ≡ ok tt)
        × (record_payment env e c uw wallet amount
              (move_money env (entity_id e) c uw wallet amount w).1
            ≡ (ok r, w'))
  unfolding settle
  settle-eq-ok e wallet amount c uw w r w' h =
      let (_, w₁, moved, recorded) = bind-eq-ok _ _ _ h in
      (ap (λ x. x.0) moved, rw (ap (λ x. x.1) moved) recorded)

  collect-IsCollected :
      (e : Entity) (dto : CreatePayment) (w : World env) (r : Response) (w' : World env)
      (wallet : Wallet) (amount : ℤ)
      → dto.amount ≤ℤ naira 15000
      → (collector env e dto.amount w).0 ≡ ok (some wallet, amount)
      → charge_card env e dto (some wallet, amount) w ≡ (ok r, w')
      → IsCollected e dto w r w'
  unfolding charge_card
  collect-IsCollected e dto w r w' wallet amount limited target h =
      let ((c, uw), w₁, approved, settled) = bind-eq-ok _ _ _ h in
      let same : w₁ ≡ w = sym (ap (λ x. x.1) approved) ∙ approve_keeps env dto amount w in
      let (moved, recorded) = settle-eq-ok e wallet amount c uw w r w' (rw same at settled) in
      record {
        wallet = wallet;
        amount = amount;
        card = c;
        payer = uw;
        limited = limited;
        target = target;
        approved = approve-IsApproved env dto amount w c uw (ap (λ x. x.0) approved);
        moved = moved;
        recorded = recorded;
      }

  charged-IsCollected :
      (e : Entity) (dto : CreatePayment) (w : World env) (r : Response) (w' : World env)
      (t : Option Wallet × ℤ)
      → dto.amount ≤ℤ naira 15000
      → (collector env e dto.amount w).0 ≡ ok t
      → charge_card env e dto t w ≡ (ok r, w')
      → r.success ≡ true
      → IsCollected e dto w r w'
  unfolding charge_card
  charged-IsCollected e dto w r w' (none, amount) limited target h s = absurd (ground arith)
  charged-IsCollected e dto w r w' (some wallet, amount) limited target h s =
      collect-IsCollected e dto w r w' wallet amount limited target h

  collect-eq-ok :
      (e : Entity) (dto : CreatePayment) (w : World env) (r : Response) (w' : World env)
      → collect env e dto w ≡ (ok r, w')
      → r.success ≡ true
      → IsCollected e dto w r w'
  unfolding collect
  collect-eq-ok e dto w r w' h s =
      let (_, w₁, small, h₁) = bind-eq-ok _ _ _ h in
      let (t, w₂, target, h₂) = bind-eq-ok _ _ _ h₁ in
      let first : w ≡ w₁ = ap (λ x. x.1) small in
      let target' : collector env e dto.amount w ≡ (ok t, w₂) = rw first target in
      let second : w ≡ w₂ = sym (collector_keeps e dto.amount w) ∙ ap (λ x. x.1) target' in
      charged-IsCollected e dto w r w' t (ground arith) (ap (λ x. x.0) target') (rw second h₂) s

  -- A collection that answers with success has passed every check: the request is within 15,000
  -- naira, the card is active, has an owner and holds the secret, a request above 500 naira has the
  -- owner's PIN, and the charged amount is covered.
  pub collect_payment-IsCollected :
      (e : Entity) (dto : CreatePayment) (w : World env) (r : Response) (w' : World env)
      → collect_payment env e dto w ≡ (ok r, w')
      → r.success ≡ true
      → IsCollected e dto w r w'
  unfolding collect_payment
  collect_payment-IsCollected e dto w r w' h s =
      collect-eq-ok e dto w r w' (try_catch-eq-ok (collect env e dto) _ w h) s
