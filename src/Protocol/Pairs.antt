-- ===== src/Protocol/Pairs.antt =====
-- The two directions of the exchange of P0 and Pi. Where both filters have a 1, what the two parties
-- add cancels.
use malicious_mpsi.Base.{ℕ, ◌<◌, ◌≡◌, sym, ◌∙◌, ap, ap₂, List, some, arith, get_or}
use malicious_mpsi.Block.{Blocks, Block, ◌⊕◌, block0, cell}
use malicious_mpsi.Random.{Random}
use malicious_mpsi.Arrange.{arranged}
use malicious_mpsi.Gbf.Chunks.{chosen}
use malicious_mpsi.Approt.{online_apport_receiver}
use malicious_mpsi.Approt.Function.{IsFunction}
use malicious_mpsi.Approt.Agreement.{received_string}
use malicious_mpsi.Choose.Opening.{IsOt}
use malicious_mpsi.Protocol.{Side}
use malicious_mpsi.Protocol.Online.{IsPlayable, side_block}

module _ ⦃b : Blocks⦄ ⦃r : Random⦄ (nbf : ℕ) where
  -- One direction of an exchange: by the OTs the receiver has one string of each pair of the sender,
  -- and the function that it makes for its filter `bf`, a good one, is what the sender gets.
  pub record IsExchange (bf : List ℕ) (receiver sender : Side) (func : List ℕ) : Type 0 where
    pub ots : ℕ
    pub bits : List ℕ
    pub sub_group : List ℕ
    pub ot : IsOt ots sender.strings bits receiver.received
    pub makes :
        online_apport_receiver bf nbf receiver.new_indexes receiver.prepared ≡ some (arranged func)
    pub good : IsFunction ots sub_group bits bf nbf func
    pub arrives : sender.func_sender ≡ func

  pub IsExchange-IsPlayable :
      {bf bf' : List ℕ} {mine other : Side} {func func' : List ℕ}
      → IsExchange bf mine other func
      → IsExchange bf' other mine func'
      → IsPlayable nbf bf mine func
  IsExchange-IsPlayable x y = record {
    makes = x.makes;
    recv_size = omega (arith, x.good.size);
    recv_in = λ k l. omega (arith, x.ot.got, x.good.inside k l);
    send_size = rw y.arrives (omega (arith, y.good.size));
    send_in = λ k l. rw y.arrives (omega (arith, y.ot.sent, y.good.inside k l));
  }

  crossed : (x y : Block) → (x ⊕ y) ⊕ (y ⊕ x) ≡ block0
  crossed x y = ap (b.xor (x ⊕ y)) (b.xor_comm y x) ∙ b.xor_self _

  received_one :
      {bf : List ℕ} {receiver sender : Side} {func : List ℕ} (k : ℕ)
      → IsExchange bf receiver sender func
      → k < nbf
      → get_or bf k 0 ≡ 1
      → cell receiver.received (get_or func k 0)
        ≡ chosen (get_or sender.strings (get_or sender.func_sender k 0) (block0, block0)) 1
  received_one {bf} {receiver} {sender} {func} k x h e =
      received_string x.ots sender.strings x.bits receiver.received x.sub_group bf bf func x.ot nbf
        k x.good h
      ∙ ap₂ (λ f i. chosen (get_or sender.strings (get_or f k 0) (block0, block0)) i)
          (sym x.arrives) e

  pub pair_cancels :
      {bf bf' : List ℕ} {mine other : Side} {func func' : List ℕ} (k : ℕ)
      → IsExchange bf mine other func
      → IsExchange bf' other mine func'
      → k < nbf
      → get_or bf k 0 ≡ 1
      → get_or bf' k 0 ≡ 1
      → side_block bf mine func k ⊕ side_block bf' other func' k ≡ block0
  pair_cancels {bf} {bf'} {mine} {other} {func} {func'} k x y h e e' =
      rw (e, e', received_one k x h e, received_one k y h e') (crossed _ _)
