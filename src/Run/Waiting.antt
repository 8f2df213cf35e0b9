-- ===== src/Run/Waiting.antt =====
-- The loops of src/command/run.rs that read replies: how long they run, and what they print.
use weverywhere.Prelude.{
  ℕ, zero, suc, ◌+◌, ◌-◌, ◌*◌, ◌%◌, ◌^◌, ◌<◌, ◌≡◌, refl, ap, ◌∙◌, List, [], ◌∷◌, All, Option, none,
  some, arith, length, flat_map, Option-cases, inl, inr,
}
use weverywhere.Messages.{Bare, NetworkMessage}
use weverywhere.Prelude.Ip.{SocketAddr}
use weverywhere.Run.{Net}
use weverywhere.Run.Client.{reply_buffer, read_daemon_replies}
use weverywhere.Run.Polls.{
  Poll, Printed, Replies, message, outcome, extended, waited, and_then, read_replies,
}
use weverywhere.Run.Shown.{AreShown, Fits, outcome-AreShown}

module _ (bare : Bare) (buf : ℕ) where
  abbrev pub one_if_some : Option NetworkMessage → ℕ
  one_if_some none = 0
  one_if_some (some m) = 1

  -- How many polls bring a message, and how many bring none.
  abbrev pub messages : List Poll → ℕ
  messages [] = 0
  messages (p ∷ ps) = one_if_some (message bare buf p) + messages ps

  abbrev pub others : List Poll → ℕ
  others [] = 0
  others (p ∷ ps) = (1 - one_if_some (message bare buf p)) + others ps

  -- How many polls pass with nothing.
  abbrev pub silent : List Poll → ℕ
  silent [] = 0
  silent (p ∷ ps) = waited bare buf p + silent ps

  length-counts : (ps : List Poll) → messages ps + others ps ≡ length ps
  length-counts [] = omega arith
  length-counts (p ∷ ps) = elim (Option-cases (message bare buf p)) [
    | inl e ↦ omega (arith, length-counts ps, ap one_if_some e)
    | inr (m, e) ↦ omega (arith, length-counts ps, ap one_if_some e)
  ]

  abbrev got : List Printed → ℕ → Option Replies
  got printed timeouts = some (record { printed = printed; timeouts = timeouts })

  counted : (printed : List Printed) {m n : ℕ} → m ≡ n → got printed m ≡ got printed n
  counted printed e = ap (got printed) e

  -- One poll, when the rest is known.
  read_replies-step :
      (p : Poll) (ps : List Poll) (fuel checks : ℕ) (o : Option NetworkMessage) {r : Replies}
      → message bare buf p ≡ o
      → read_replies bare buf fuel (extended bare buf o checks) ps ≡ some r
      → read_replies bare buf (suc fuel) (suc checks) (p ∷ ps)
        ≡ and_then bare buf (outcome bare buf p) (waited bare buf p) (some r)
  unfolding read_replies
  read_replies-step p ps fuel checks o e rest =
      let next =
        λ (o : Option NetworkMessage). read_replies bare buf fuel (extended bare buf o checks) ps in
      ap (and_then bare buf (outcome bare buf p) (waited bare buf p)) (ap next e ∙ rest)

  read_replies-idle :
      (fuel checks : ℕ)
      → checks < fuel
      → read_replies bare buf fuel checks [] ≡ some (record { printed = []; timeouts = checks })
  unfolding read_replies
  read_replies-idle zero checks h = absurd (omega arith)
  read_replies-idle (suc fuel) zero h = refl
  read_replies-idle (suc fuel) (suc checks) h =
      ap (and_then bare buf [] 1) (read_replies-idle fuel checks (omega arith))
      ∙ counted [] (omega arith)

  read_replies-shows_all :
      (ps : List Poll) (fuel checks : ℕ)
      → others ps < checks
      → checks + 10 * length ps < fuel
      → fuel < 2 ^ 64
      → read_replies bare buf fuel checks ps
        ≡ some (record {
          printed = flat_map (outcome bare buf) ps;
          timeouts = silent ps + (checks + 10 * messages ps - length ps);
        })
  read_replies-shows_all [] fuel checks few enough small =
      read_replies-idle fuel checks (omega arith) ∙ counted [] (omega arith)
  read_replies-shows_all (p ∷ ps) zero checks few enough small = absurd (omega arith)
  read_replies-shows_all (p ∷ ps) (suc fuel) zero few enough small = absurd (omega arith)
  read_replies-shows_all (p ∷ ps) (suc fuel) (suc checks) few enough small =
      elim (Option-cases (message bare buf p)) [
        | inl e ↦
            read_replies-step p ps fuel checks none e (
              read_replies-shows_all ps fuel checks (omega (arith, ap one_if_some e)) (omega arith)
                (omega arith))
            ∙ counted _ (omega (arith, ap one_if_some e, length-counts ps))
        | inr (m, e) ↦
            let wraps : (checks + 10) % 2 ^ 64 ≡ checks + 10 = omega arith in
            let rest =
              ap (λ c. read_replies bare buf fuel c ps) wraps
              ∙ read_replies-shows_all ps fuel (checks + 10) (omega (arith, ap one_if_some e))
                  (omega arith) (omega arith) in
            read_replies-step p ps fuel checks (some m) e rest
            ∙ counted _ (omega (arith, ap one_if_some e, length-counts ps))
      ]

  read_replies-ends :
      (ps : List Poll) (fuel checks : ℕ)
      → checks + 10 * length ps < fuel
      → (r : Replies) × (read_replies bare buf fuel checks ps ≡ some r)
  unfolding read_replies
  read_replies-ends ps zero checks enough = absurd (omega arith)
  read_replies-ends ps (suc fuel) zero enough = (record { printed = []; timeouts = 0 }, refl)
  read_replies-ends [] (suc fuel) (suc checks) enough =
      (_, read_replies-idle (suc fuel) (suc checks) (omega arith))
  read_replies-ends (p ∷ ps) (suc fuel) (suc checks) enough =
      elim (Option-cases (message bare buf p)) [
        | inl e ↦
            let (r, rest) = read_replies-ends ps fuel checks (omega arith) in
            (_, read_replies-step p ps fuel checks none e rest)
        | inr (m, e) ↦
            let (r, rest) = read_replies-ends ps fuel ((checks + 10) % 2 ^ 64) (omega arith) in
            (_, read_replies-step p ps fuel checks (some m) e rest)
      ]

module _ (net : Net) (bare : Bare) (polls : SocketAddr → List Poll) where
  -- Whatever comes in, the client stops waiting for replies: of finitely many polls, each extends the
  -- wait by ten checks at most.
  pub read_daemon_replies-ends :
      (addr : SocketAddr) → (r : Replies) × (read_daemon_replies net bare polls addr ≡ some r)
  unfolding read_daemon_replies
  read_daemon_replies-ends addr = read_replies-ends bare reply_buffer (polls addr) _ _ (omega arith)

  -- If fewer than 24 polls bring no message, and no reply is longer than the buffer of 16 KiB, then
  -- every reply is printed, in the order of arrival: output as text if it is UTF-8 and as bytes if
  -- not, an exit with its code, another message as unexpected, and what is none as an error. The
  -- client waits on for 24 checks and ten more for each message, less those that were used, whether or
  -- not the program has reported its exit.
  pub read_daemon_replies-AreShown :
      (addr : SocketAddr)
      → let ps = polls addr in
        others bare 16384 ps < 24
        → 10 * length ps + 25 < 2 ^ 64
        → All Fits ps
        → (printed : List Printed) × (read_daemon_replies net bare polls addr
            ≡ some (record {
              printed = printed;
              timeouts = silent bare 16384 ps + (24 + 10 * messages bare 16384 ps - length ps);
            }))
          × AreShown bare ps printed
  unfolding read_daemon_replies
  read_daemon_replies-AreShown addr few small fits = (
    flat_map (outcome bare 16384) (polls addr),
    read_replies-shows_all bare reply_buffer (polls addr) _ _ few (omega arith) (omega arith),
    outcome-AreShown bare (polls addr) fits,
  )
