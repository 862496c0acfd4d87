-- ===== src/Rtmq/Recv/Consume.antt =====
-- Handling a stream of bytes as a whole, the specification of rtmq_rsvr_data_proc of
-- src/clang/lib/rtmq/server/rtmq_rsvr.c.
use beehive_im.Common.{
  ℕ, zero, suc, ◌≡◌, ◌<◌, ◌⊎◌, ◌∙◌, refl, Bool, true, false, Bool-cases, List, ◌++◌, nat_key,
  length, arith, inl, inr,
}
use beehive_im.Rtmq.Wire.{Message}
use beehive_im.Rtmq.Recv.{
  Cut, short, bad_chksum, wrapped, whole, next_mesg, Outcome, waits, failed, closed, aborted,
  overrun, stuck,
}
use beehive_im.Rtmq.Recv.Split.{next_mesg-append, next_mesg_whole}

pub Cut-cases :
    (c : Cut)
    → (c ≡ short)
      ⊎ (c ≡ bad_chksum)
      ⊎ (c ≡ wrapped)
      ⊎ ((m : Message) × (rest : List ℕ) × (c ≡ whole m rest))
Cut-cases short = inl refl
Cut-cases bad_chksum = inr (inl refl)
Cut-cases wrapped = inr (inr (inl refl))
Cut-cases (whole m rest) = inr (inr (inr (m, rest, refl)))

-- How a link stands, apart from where its bytes lie in the buffer.
pub data Verdict (S : Type 0) : Type 0 where
  keeps : List ℕ → S → Verdict S
  fails : S → Verdict S
  shut : S → Verdict S
  aborts : Verdict S
  beyond : Verdict S
  lost : Verdict S

abbrev pub view : {S : Type 0} → Outcome S → Verdict S
view (waits snap s) = keeps snap.pending s
view (failed s) = fails s
view (closed s) = shut s
view aborted = aborts
view overrun = beyond
view stuck = lost

module _ {S : Type 0} (handle : S → Message → Bool × S) where
  -- The specification: the messages at the front of the bytes are handled in order.
  unfoldable pub consume : ℕ → List ℕ → S → Verdict S
  consume zero bytes s = lost
  consume (suc fuel) bytes s = elim (next_mesg bytes) [
    | short ↦ keeps bytes s
    | bad_chksum ↦ aborts
    | wrapped ↦ beyond
    | whole m rest ↦ elim (handle s m).0 [
      | true ↦ fails (handle s m).1
      | false ↦ consume fuel rest (handle s m).1
    ]
  ]

  -- What comes later is taken up where it stopped.
  abbrev pub resume : Verdict S → (List ℕ → S → Verdict S) → Verdict S
  resume (keeps rest s) k = k rest s
  resume (fails s) k = fails s
  resume (shut s) k = shut s
  resume aborts k = aborts
  resume beyond k = beyond
  resume lost k = lost

  -- Rounds for each byte and one more are enough.
  pub consume_enough :
      (n k : ℕ) (bytes : List ℕ) (s : S)
      → length bytes < n
      → length bytes < k
      → consume n bytes s ≡ consume k bytes s
  unfolding consume
  consume_enough zero k bytes s p q = absurd (omega (arith, p))
  consume_enough (suc n) zero bytes s p q = absurd (omega (arith, q))
  consume_enough (suc n) (suc k) bytes s p q = elim (Cut-cases (next_mesg bytes)) [
    | inl e ↦ rw (e, consume) refl
    | inr (inl e) ↦ rw (e, consume) refl
    | inr (inr (inl e)) ↦ rw (e, consume) refl
    | inr (inr (inr (m, rest, e))) ↦
        let less = next_mesg_whole bytes m rest e in
        elim (Bool-cases (handle s m).0) [
          | inl stop ↦ rw (e, consume, stop) refl
          | inr go ↦
              rw (e, consume, go)
                (consume_enough n k rest (handle s m).1 (omega (arith, p, less))
                  (omega (arith, q, less)))
        ]
  ]

  -- All messages at the front of the bytes.
  unfoldable pub run : List ℕ → S → Verdict S
  run bytes s = consume (suc (length bytes)) bytes s

  pub run_whole :
      (bytes : List ℕ) (s : S) (m : Message) (rest : List ℕ)
      → next_mesg bytes ≡ whole m rest
      → run bytes s
        ≡ elim (handle s m).0 [ true ↦ fails (handle s m).1 | false ↦ run rest (handle s m).1 ]
  unfolding run consume
  run_whole bytes s m rest e =
      let less = next_mesg_whole bytes m rest e in
      elim (Bool-cases (handle s m).0) [
        | inl stop ↦ rw (e, consume, stop) refl
        | inr go ↦
            rw (e, consume, go)
              (consume_enough (length bytes) (suc (length rest)) rest (handle s m).1
                (omega (arith, less)) (omega arith))
      ]

  pub run_short : (bytes : List ℕ) (s : S) → next_mesg bytes ≡ short → run bytes s ≡ keeps bytes s
  unfolding run consume
  run_short bytes s e = rw (e, consume) refl

  run_bad : (bytes : List ℕ) (s : S) → next_mesg bytes ≡ bad_chksum → run bytes s ≡ aborts
  unfolding run consume
  run_bad bytes s e = rw (e, consume) refl

  run_wrapped : (bytes : List ℕ) (s : S) → next_mesg bytes ≡ wrapped → run bytes s ≡ beyond
  unfolding run consume
  run_wrapped bytes s e = rw (e, consume) refl

  -- Bytes that come later are taken up where the earlier ones stopped.
  pub consume-append :
      (n : ℕ) (xs ys : List ℕ) (s : S)
      → length xs < n
      → run (xs ++ ys) s ≡ resume (consume n xs s) (λ rest t. run (rest ++ ys) t)
  unfolding consume
  consume-append zero xs ys s p = absurd (omega (arith, p))
  consume-append (suc n) xs ys s p =
      let same = next_mesg-append xs ys in
      elim (Cut-cases (next_mesg xs)) [
        | inl e ↦ rw (e, consume) refl
        | inr (inl e) ↦ rw (e, consume) (run_bad (xs ++ ys) s (rw e at same))
        | inr (inr (inl e)) ↦ rw (e, consume) (run_wrapped (xs ++ ys) s (rw e at same))
        | inr (inr (inr (m, rest, e))) ↦
            let less = next_mesg_whole xs m rest e in
            run_whole (xs ++ ys) s m (rest ++ ys) (rw e at same)
            ∙ elim (Bool-cases (handle s m).0) [
              | inl stop ↦ rw (e, consume, stop) refl
              | inr go ↦
                  rw (e, consume, go)
                    (consume-append n rest ys (handle s m).1 (omega (arith, p, less)))
            ]
      ]

  -- What is kept is less than a message.
  pub consume_short :
      (n : ℕ) (bytes rest : List ℕ) (s t : S)
      → consume n bytes s ≡ keeps rest t
      → next_mesg rest ≡ short
  unfolding consume
  consume_short zero bytes rest s t h = absurd (cc)
  consume_short (suc n) bytes rest s t h = elim (Cut-cases (next_mesg bytes)) [
    | inl e ↦ ground (arith, h, e)
    | inr (inl e) ↦ ground (arith, h, e)
    | inr (inr (inl e)) ↦ ground (arith, h, e)
    | inr (inr (inr (m, more, e))) ↦
        ground (arith, h, e, consume_short n more rest (handle s m).1 t)
  ]
