-- ===== src/Rtmq/Recv/Stream.antt =====
-- What a link delivers does not depend on how the network cuts the stream: rtmq_rsvr_recv_proc and
-- rtmq_rsvr_data_proc of src/clang/lib/rtmq/server/rtmq_rsvr.c.
use Prim.Native.Nat.{min}
use beehive_im.Common.{
  ℕ, zero, suc, ◌+◌, ◌≡◌, ◌≤◌, ◌<◌, ◌∙◌, sym, refl, ap, Bool, false, Bool-cases, List, [], ◌∷◌,
  ◌++◌, map, if◌then◌else◌, ◌==◌, nat_key, nat_beq_iff, length, length-append, length-take,
  length-drop, take-drop, take, drop, arith, inl, inr, append-nil, append_assoc,
}
use beehive_im.Rtmq.Wire.{Message, head_size, head_hton, mesg_hton}
use beehive_im.Rtmq.Recv.{
  Snap, short, whole, next_mesg, got, Outcome, waits, failed, closed, aborted, overrun, stuck,
  proceed, left_of, switch_recv_buff, data_proc, recv_proc,
}
use beehive_im.Rtmq.Recv.Split.{IsMessage, next_mesg-append, next_mesg-mesg_hton}
use beehive_im.Rtmq.Recv.Consume.{
  Cut-cases, Verdict, keeps, fails, view, consume, resume, run, run_short, run_whole,
  consume-append, consume_short,
}
use beehive_im.Rtmq.Recv.Bounds.{Fits, data_proc-Fits}

abbrev pub concat : List (List ℕ) → List ℕ
concat [] = []
concat (c ∷ cuts) = c ++ concat cuts

-- The stream of a sender
abbrev pub encoded : List Message → List ℕ
encoded ms = concat (map mesg_hton ms)

abbrev pub AreMessages : List Message → Type 0
AreMessages [] = Unit {0}
AreMessages (m ∷ ms) = IsMessage m × AreMessages ms

-- No message is longer than the buffer.
abbrev pub Fitting : ℕ → List Message → Type 0
Fitting size [] = Unit {0}
Fitting size (m ∷ ms) = (head_size + m.head.length ≤ size) × Fitting size ms

-- Each time that the link is read from, something may have come in.
abbrev pub Positive : List ℕ → Type 0
Positive [] = Unit {0}
Positive (n ∷ ns) = (0 < n) × Positive ns

prefix :
    (us vs xs ys : List ℕ)
    → xs ++ ys ≡ us ++ vs
    → length us ≤ length xs
    → xs ≡ us ++ drop (length us) xs
prefix [] vs xs ys e h = refl
prefix (a ∷ us) vs [] ys e h = absurd (omega (arith, h))
prefix (a ∷ us) vs (x ∷ xs) ys e h =
    let same : x ≡ a = ground (arith, e) in
    let rest : xs ++ ys ≡ us ++ vs = ground (arith, e) in
    let more = prefix us vs xs ys rest (omega (arith, h)) in ground (arith, same, more)

length-mesg_hton : (m : Message) → IsMessage m → length (mesg_hton m) ≡ head_size + m.head.length
length-mesg_hton m v = unfold mesg_hton head_hton in omega (arith, v.sized)

-- Part of a message that begins the stream does not fill the buffer.
not_full :
    (size : ℕ) (ms : List Message) (rest ys : List ℕ)
    → 0 < size
    → AreMessages ms
    → Fitting size ms
    → rest ++ ys ≡ encoded ms
    → next_mesg rest ≡ short
    → length rest ≡ size
    → ⊥
not_full size [] rest ys some_ v f e part full =
    omega (arith, some_, full, ap length e, length-append rest ys)
not_full size (m ∷ ms) rest ys some_ v f e part full =
    let long = length-mesg_hton m v.0 in
    let at = prefix (mesg_hton m) (encoded ms) rest ys e (omega (arith, long, f.0, full)) in
    let cut = next_mesg-mesg_hton m (drop (length (mesg_hton m)) rest) v.0 in
    let both = sym part ∙ ap next_mesg at ∙ cut in absurd (cc (both))

module _ {S : Type 0} (handle : S → Message → Bool × S) where
  abbrev Left : ℕ → List ℕ → Type 0
  Left size bytes = (ms : List Message) × AreMessages ms × Fitting size ms × (bytes ≡ encoded ms)

  behind_first :
      (size : ℕ) (ms : List Message) (m : Message) (more bytes : List ℕ)
      → AreMessages ms
      → Fitting size ms
      → next_mesg bytes ≡ whole m more
      → bytes ≡ encoded ms
      → Left size more
  behind_first size [] m more bytes v f front e =
      let nothing : next_mesg [] ≡ short = unfold next_mesg in refl in
      absurd (cc (front, e, nothing))
  behind_first size (k ∷ ms) m more bytes v f front e =
      let cut = next_mesg-mesg_hton k (encoded ms) v.0 in
      let both = sym front ∙ ap next_mesg e ∙ cut in
      let same : more ≡ encoded ms = ground (arith, both) in (ms, v.1, f.1, same)

  -- What is left of the stream after some of its bytes were handled is a stream of messages again.
  what_remains :
      (size n : ℕ) (ms : List Message) (xs ys rest : List ℕ) (s t : S)
      → AreMessages ms
      → Fitting size ms
      → xs ++ ys ≡ encoded ms
      → consume handle n xs s ≡ keeps rest t
      → Left size (rest ++ ys)
  unfolding consume
  what_remains size zero ms xs ys rest s t v f e h = absurd (cc)
  what_remains size (suc n) ms xs ys rest s t v f e h = elim (Cut-cases (next_mesg xs)) [
    | inl c ↦
        let same : xs ≡ rest = ground (arith, h, c) in (ms, v, f, ap (λ z. z ++ ys) (sym same) ∙ e)
    | inr (inl c) ↦ absurd (ground (arith, h, c))
    | inr (inr (inl c)) ↦ absurd (ground (arith, h, c))
    | inr (inr (inr (m, more, c))) ↦ elim (Bool-cases (handle s m).0) [
      | inl stop ↦ absurd (ground (arith, h, c, stop))
      | inr go ↦
          let on : consume handle n more (handle s m).1 ≡ keeps rest t = rw (c, consume, go) at h in
          let front : next_mesg (xs ++ ys) ≡ whole m (more ++ ys) =
            rw c at (next_mesg-append xs ys) in
          let (ms1, v1, f1, e1) = behind_first size ms m (more ++ ys) (xs ++ ys) v f front e in
          what_remains size n ms1 more ys rest (handle s m).1 t v1 f1 e1 on
    ]
  ]

  module _ (size : ℕ) where
    kept : (snap : Snap) → (switch_recv_buff size handle snap).pending ≡ snap.pending
    unfolding switch_recv_buff
    kept snap = ground arith

    data_proc-consume :
        (n : ℕ) (snap : Snap) (s : S)
        → view (data_proc size handle n snap s) ≡ consume handle n snap.pending s
    unfolding data_proc consume switch_recv_buff
    data_proc-consume zero snap s = refl
    data_proc-consume (suc n) snap s = elim (Cut-cases (next_mesg snap.pending)) [
      | inl e ↦ rw (e, data_proc, consume) (ap (λ (p : List ℕ). keeps p s) (kept snap))
      | inr (inl e) ↦ rw (e, data_proc, consume) refl
      | inr (inr (inl e)) ↦ rw (e, data_proc, consume) refl
      | inr (inr (inr (m, rest, e))) ↦ elim (Bool-cases (handle s m).0) [
        | inl stop ↦ rw (e, data_proc, consume, stop) refl
        | inr go ↦
            rw (e, data_proc, consume, go)
              (data_proc-consume n
                (record { optr = snap.optr + (head_size + m.head.length); pending = rest })
                (handle s m).1)
      ]
    ]

    proceed-resume :
        (o : Outcome S) (next : Snap → S → Outcome S) (k : List ℕ → S → Verdict S)
        → ((snap : Snap) (s : S) → o ≡ waits snap s → view (next snap s) ≡ k snap.pending s)
        → view (proceed o next) ≡ resume handle (view o) k
    proceed-resume (waits snap s) next k h = h snap s refl
    proceed-resume (failed s) next k h = refl
    proceed-resume (closed s) next k h = refl
    proceed-resume aborted next k h = refl
    proceed-resume overrun next k h = refl
    proceed-resume stuck next k h = refl

    nothing_more :
        (snap : Snap) (s : S) (wire bytes : List ℕ)
        → next_mesg snap.pending ≡ short
        → length wire ≡ 0
        → snap.pending ++ wire ≡ bytes
        → keeps snap.pending s ≡ run handle bytes s
    nothing_more snap s [] bytes settled h e =
        sym (run_short handle snap.pending s settled)
        ∙ ap (λ b. run handle b s) (sym (append-nil snap.pending) ∙ e)
    nothing_more snap s (b ∷ wire) bytes settled h e = absurd (omega (arith, h))

    -- A link that holds less than a message, and has room, ends as if all the bytes of a stream had come at once.
    recv_proc-encoded :
        (ns : List ℕ) (wire : List ℕ) (snap : Snap) (s : S) (ms : List Message)
        → Positive ns
        → length wire ≤ length ns
        → AreMessages ms
        → Fitting size ms
        → snap.pending ++ wire ≡ encoded ms
        → next_mesg snap.pending ≡ short
        → snap.optr + length snap.pending < size
        → view (recv_proc size handle (map got ns) wire snap s) ≡ run handle (encoded ms) s
    unfolding recv_proc
    recv_proc-encoded [] wire snap s ms pos few v f e settled room =
        nothing_more snap s wire (encoded ms) settled (omega (arith, few)) e
    recv_proc-encoded (n ∷ ns) wire snap s ms pos few v f e settled room =
        let k = min n (left_of size handle snap) in
        let some_ : 0 < k = omega (arith, pos.0, room) in
        let c = take k wire in
        let open_ : (left_of size handle snap == 0) ≡ false = ground (arith, room) in
        elim (Bool-cases (length c == 0)) [
          | inl none_ ↦
              rw (recv_proc, open_, none_)
                (nothing_more snap s wire (encoded ms) settled
                  (omega (arith, (nat_beq_iff (length c) 0).0 none_, length-take k wire, some_)) e)
          | inr more ↦
              let bytes = snap.pending ++ c in
              let next : Snap = record snap { pending = bytes } in
              let o = data_proc size handle (suc (length bytes)) next s in
              let seen = data_proc-consume (suc (length bytes)) next s in
              let whole_ : bytes ++ drop k wire ≡ encoded ms =
                append_assoc snap.pending c (drop k wire)
                ∙ ap (λ z. snap.pending ++ z) (take-drop k wire)
                ∙ e in
              let within : Fits size next =
                omega (arith, room, length-append snap.pending c, length-take k wire) in
              rw (recv_proc, open_, more)
                (proceed-resume o (recv_proc size handle (map got ns) (drop k wire))
                    (λ rest t. run handle (rest ++ drop k wire) t)
                    (λ snap' s' g.
                      let kept_ = sym seen ∙ ap view g in
                      let part =
                        consume_short handle (suc (length bytes)) bytes snap'.pending s s' kept_ in
                      let (ms', v', f', e') =
                        what_remains size (suc (length bytes)) ms bytes (drop k wire) snap'.pending
                          s s' v f whole_ kept_ in
                      let bound =
                        data_proc-Fits size handle (suc (length bytes)) next snap' s s' within g in
                      recv_proc-encoded ns (drop k wire) snap' s' ms' pos.1
                        (omega (arith, few, some_, length-drop k wire)) v' f' e' part
                        (elim bound.1 [
                          | inl free ↦ free
                          | inr full ↦ absurd (
                              not_full size ms' snap'.pending (drop k wire) (omega (arith, room)) v'
                                f' e' part full.0)
                        ])
                      ∙ ap (λ b. run handle b s') (sym e'))
                  ∙ ap
                      (λ (v : Verdict S).
                        resume handle v (λ rest t. run handle (rest ++ drop k wire) t))
                      seen
                  ∙ sym (
                      consume-append handle (suc (length bytes)) bytes (drop k wire) s
                        (omega arith))
                  ∙ ap (λ (b : List ℕ). run handle b s) whole_)
        ]

  -- The messages handled one after the other, until one fails the link.
  abbrev pub deliver : List Message → S → Verdict S
  deliver [] s = keeps [] s
  deliver (m ∷ ms) s = if (handle s m).0 then fails (handle s m).1 else deliver ms (handle s m).1

  run-encoded :
      (ms : List Message) (s : S)
      → AreMessages ms
      → run handle (concat (map mesg_hton ms)) s ≡ deliver ms s
  run-encoded [] s v = run_short handle [] s (unfold next_mesg in refl)
  run-encoded (m ∷ ms) s v =
      run_whole handle (mesg_hton m ++ concat (map mesg_hton ms)) s m (concat (map mesg_hton ms))
        (next_mesg-mesg_hton m (concat (map mesg_hton ms)) v.0)
      ∙ ground (arith, run-encoded ms (handle s m).1 v.1)

  -- A link that begins with an empty buffer, of one byte or more, delivers the messages of a sender, none longer than the buffer, in order and
  -- as they were sent, however few of their bytes come in at a time and the buffer has room for; it stops at the first one
  -- that fails the link, if there is one. It is read from as many times as there are bytes, or more.
  pub recv_proc-deliver :
      (size : ℕ) (ms : List Message) (ns : List ℕ) (s : S)
      → 0 < size
      → AreMessages ms
      → Fitting size ms
      → Positive ns
      → length (encoded ms) ≤ length ns
      → view (recv_proc size handle (map got ns) (encoded ms) (record { optr = 0; pending = [] }) s)
        ≡ deliver ms s
  recv_proc-deliver size ms ns s some_ v f pos enough =
      recv_proc-encoded size ns (encoded ms) (record { optr = 0; pending = [] }) s ms pos enough v f
        refl (unfold next_mesg in refl) some_
      ∙ run-encoded ms s v
