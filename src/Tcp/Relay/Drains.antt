-- ===== src/Tcp/Relay/Drains.antt =====
-- src/tcp_proxy.c: `tcp_relay_drain`, over every list of answers.
use tproxy2ss.Base.{
  ℕ, zero, suc, ◌+◌, ◌≤◌, ◌<◌, ◌≡◌, refl, sym, ap, ◌∙◌, arith, Bool, false, List, [], ◌∷◌, ◌++◌,
  append_assoc, length, take, drop, min, length-drop, take-drop, drop-drop, drop_append-le,
  drop-min,
}
use mathlib.Core.Bool.{true≢false}
use tproxy2ss.Base.Bytes.{Bytes}
use tproxy2ss.Tcp.Relay.Defs.{Sent, interrupted, again, broken, wrote, Drained, drain}

-- A drain sends a front of the bytes and leaves the others where they stand in the buffer; a
-- drain that fails leaves some.
pub record IsDrained (buffer : Bytes) (off : ℕ) (bytes : Bytes) (d : Drained) : Type 0 where
  pub parts : bytes ≡ d.sent ++ d.left
  pub within : d.off + length d.left ≤ off + length bytes
  pub stands : (0 < length d.left) → (rest : Bytes) × (drop d.off buffer ≡ d.left ++ rest)
  pub reset : length d.left ≡ 0 → d.off ≡ 0
  pub failed : d.alive ≡ false → 0 < length d.left

-- A drain that sends nothing
kept-IsDrained :
    (buffer : Bytes) (off b : ℕ) (bs rest : Bytes)
    → drop off buffer ≡ (b ∷ bs) ++ rest
    → (alive : Bool)
    → IsDrained buffer off (b ∷ bs) (record { alive = alive; off = off; left = b ∷ bs; sent = [] })
kept-IsDrained buffer off b bs rest e alive = record {
  parts = refl;
  within = omega arith;
  stands = λ h. (rest, e);
  reset = λ h. absurd (omega (arith, h));
  failed = λ h. omega arith;
}

pub drain-IsDrained :
    (answers : List Sent) (buffer : Bytes) (off : ℕ) (bytes rest : Bytes)
    → drop off buffer ≡ bytes ++ rest
    → IsDrained buffer off bytes (drain answers off bytes)
unfolding drain
drain-IsDrained answers buffer off [] rest e = record {
  parts = refl;
  within = omega arith;
  stands = λ h. absurd (omega (arith, h));
  reset = λ h. refl;
  failed = λ h. absurd (true≢false h);
}
drain-IsDrained [] buffer off (b ∷ bs) rest e = kept-IsDrained buffer off b bs rest e _
drain-IsDrained (interrupted ∷ l) buffer off (b ∷ bs) rest e =
    drain-IsDrained l buffer off (b ∷ bs) rest e
drain-IsDrained (again ∷ l) buffer off (b ∷ bs) rest e = kept-IsDrained buffer off b bs rest e _
drain-IsDrained (broken ∷ l) buffer off (b ∷ bs) rest e = kept-IsDrained buffer off b bs rest e _
drain-IsDrained (wrote zero ∷ l) buffer off (b ∷ bs) rest e =
    kept-IsDrained buffer off b bs rest e _
drain-IsDrained (wrote (suc n) ∷ l) buffer off (b ∷ bs) rest e =
    let k = min (suc n) (suc (length bs)) in
    let less = drop-min (suc n) (b ∷ bs) in
    let at : drop (off + k) buffer ≡ drop n bs ++ rest =
      sym (drop-drop off k buffer)
      ∙ ap (drop k) e
      ∙ drop_append-le k (b ∷ bs) rest (omega arith)
      ∙ ap (λ x. x ++ rest) less in
    let d = drain-IsDrained l buffer (off + k) (drop n bs) rest at in
    record {
      parts = ap (◌∷◌ b) (
          sym (take-drop n bs)
          ∙ ap (λ x. take n bs ++ x) d.parts
          ∙ sym (append_assoc (take n bs) _ _));
      within = omega (arith, d.within, length-drop n bs);
      stands = d.stands;
      reset = d.reset;
      failed = d.failed;
    }
