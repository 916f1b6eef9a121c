-- ===== src/Net/Reliability/Rates.antt =====
-- `update` of reliability.cpp: the packets given up as lost, and the rates of a window.
use morton.Base.{
  ℕ, zero, suc, ◌+◌, ◌-◌, ◌^◌, ◌≤◌, ◌<◌, ◌≡◌, refl, sym, ◌∙◌, Bool, true, false, not, none, some,
  ltb, ◌==◌, if◌then◌else◌, inl, inr, u16, u64, sub16, sub64, Bool-cases, arith,
}
use morton.Core.Float.{F32}
use morton.Core.Sequence.{sequence_greater}
use morton.Net.SequenceBuffer.{SequenceBuffer, find}
use morton.Net.Reliability.{Endpoint, Estimates, RateWindow, SentPacket, sent_initial, empty_window}

abbrev pub loss_horizon : ℕ
loss_horizon = 32

abbrev pub rate_window_us : ℕ
rate_window_us = 250000

-- Whether the packet of a sequence is still in the history without an acknowledgement.
unfoldable pub is_unacked : SequenceBuffer SentPacket → ℕ → Bool
is_unacked sent sequence = elim (find sent_initial sent sequence) [
  | none ↦ false
  | some p ↦ not p.acked
]

-- `while (sequence_greater(horizon_end, loss_cursor_))`: the cursor at the end, and the number of
-- packets lost.
unfoldable pub loss_loop : ℕ → SequenceBuffer SentPacket → ℕ → ℕ → ℕ × ℕ
loss_loop zero sent horizon_end cursor = (cursor, 0)
loss_loop (suc fuel) sent horizon_end cursor =
    let (end, lost) = loss_loop fuel sent horizon_end (u16 (cursor + 1)) in
    if sequence_greater horizon_end cursor
    then (end, if is_unacked sent cursor then suc lost else lost)
    else (cursor, 0)

module _ (F : F32) where
  open F use {add, sub, mul, div, of_u64, decimal}

  unfoldable pub blend : Bool → F.Carrier → F.Carrier → F.Carrier
  blend initialized target sample =
      if initialized then add target (mul (sub sample target) (decimal 10 2)) else sample

  -- `static_cast<f32>(bytes) * 8.f / 1000.f / elapsed_s`, and `part * 100.f / whole`.
  unfoldable pub kbps : ℕ → F.Carrier → F.Carrier
  kbps bytes elapsed_s = div (div (mul (of_u64 bytes) (decimal 8 0)) (decimal 1000 0)) elapsed_s

  unfoldable pub percent : ℕ → ℕ → F.Carrier
  percent part whole = div (mul (of_u64 part) (decimal 100 0)) (of_u64 whole)

module _ {F : F32} where
  open F use {div, of_u64, decimal}

  -- The first part of `update`, up to the end of the loop. The distance of the horizon is enough
  -- fuel.
  unfoldable pub judge_losses : Endpoint F → ℕ → Endpoint F
  judge_losses e now_us =
      let horizon_end = sub16 e.sequence loss_horizon in
      let cursor = (if e.has_loss_cursor then e.loss_cursor else horizon_end) in
      let (end, lost) = loss_loop (sub16 horizon_end cursor) e.sent horizon_end cursor in
      record e {
        loss_cursor = end;
        has_loss_cursor = true;
        counters = record (e.counters) { packets_lost = u64 (e.counters.packets_lost + lost) };
        window = record (e.window) {
          start_us = if e.window.start_us == 0 then now_us else e.window.start_us;
          packets_lost = u64 (e.window.packets_lost + lost);
        };
      }

  -- The new estimates at the end of a window.
  unfoldable pub window_estimates : Estimates F → RateWindow → ℕ → Estimates F
  window_estimates s w elapsed_us =
      let elapsed_s = div (of_u64 elapsed_us) (decimal 1000000 0) in
      let sent_judged = u64 (w.packets_acked + w.packets_lost) in
      let missing = w.packets_expected - w.packets_recv in
      let blend_new = blend F s.rates_initialized in
      record s {
        sent_kbps = blend_new s.sent_kbps (kbps F w.bytes_sent elapsed_s);
        recv_kbps = blend_new s.recv_kbps (kbps F w.bytes_recv elapsed_s);
        sent_loss_percent =
            if ltb 0 sent_judged
            then blend_new s.sent_loss_percent (percent F w.packets_lost sent_judged)
            else s.sent_loss_percent;
        recv_loss_percent =
            if ltb 0 w.packets_expected
            then blend_new s.recv_loss_percent (percent F missing w.packets_expected)
            else s.recv_loss_percent;
        rates_initialized = true;
        stats_rtt_ms = s.rtt_ewma_ms;
        stats_rtt_jitter_ms = s.jitter_ewma_ms;
        stats_rtt_min_ms = s.rtt_min_ms;
      }

  unfoldable pub update : Endpoint F → ℕ → Endpoint F
  update e now_us =
      let judged = judge_losses e now_us in
      let elapsed_us = sub64 now_us judged.window.start_us in
      if ltb elapsed_us rate_window_us then judged else record judged {
        estimates = window_estimates judged.estimates judged.window elapsed_us;
        window = empty_window now_us;
      }

next_greater :
    (h c : ℕ)
    → h < 2 ^ 16
    → c < 2 ^ 16
    → sequence_greater h c ≡ true
    → (sub16 h c ≡ suc (sub16 h (u16 (c + 1)))) × (sub16 h (u16 (c + 1)) < 32768)
unfolding sequence_greater
next_greater h c hh hc g = ground arith

not_greater : (h c : ℕ) → h < 2 ^ 16 → c < 2 ^ 16 → sub16 h c ≡ 0 → sequence_greater h c ≡ false
unfolding sequence_greater
not_greater h c hh hc e = ground arith

near_greater :
    (h c : ℕ) → h < 2 ^ 16 → c < 2 ^ 16 → sub16 h c < 32768 → sequence_greater h c ≡ false → h ≡ c
unfolding sequence_greater
near_greater h c hh hc near e = ground arith

-- The loop over the lost packets, with the distance of the horizon or more as fuel, takes the
-- cursor exactly to the horizon when the horizon is ahead of it, and leaves it otherwise.
pub loss_loop-end :
    (sent : SequenceBuffer SentPacket) (horizon_end cursor fuel : ℕ)
    → horizon_end < 2 ^ 16
    → cursor < 2 ^ 16
    → sub16 horizon_end cursor ≤ fuel
    → (loss_loop fuel sent horizon_end cursor).0
      ≡ (if sequence_greater horizon_end cursor then horizon_end else cursor)
unfolding loss_loop
loss_loop-end sent h c zero hh hc enough = rw (not_greater h c hh hc (omega arith)) refl
loss_loop-end sent h c (suc fuel) hh hc enough = elim (Bool-cases (sequence_greater h c)) [
  | inl ahead ↦
      let one = next_greater h c hh hc ahead in
      let c' : ℕ = u16 (c + 1) in
      rw ahead (
        loss_loop-end sent h c' fuel hh (omega arith) (omega (arith, one.0))
        ∙ elim (Bool-cases (sequence_greater h c')) [
          | inl still ↦ rw still refl
          | inr reached ↦ rw reached (sym (near_greater h c' hh (omega arith) one.1 reached))
        ])
  | inr there ↦ rw there refl
]
