-- ===== src/Session/Shell/Resize.antt =====
-- Which sizes of the terminal go out.
use mathlib.Core.Path.{subst}
use mathlib.Core.Logic.{ite, if_pos, if_neg}
use native.Mathlib.Decide.{ℕ_discrete}
use ecstoolkit.Base.{
  ℕ, zero, suc, ◌&&◌, ◌≡◌, refl, ◌∙◌, sym, ap, ℤ, pos, negsuc, pos_part, ltb_ℤ, IsInt64, Bool, true,
  not, List, [], ◌∷◌, ◌++◌, Result, ok, err, panic, blocked, if◌then◌else◌, arith, Returns, ◌≢◌,
  false, ◌^◌, ◌-◌, attempted, length, Bool-cases, inl, inr, append_assoc, append-nil, eof, All,
}
use ecstoolkit.Buffer.{Bytes}
use ecstoolkit.Message.PayloadType
use ecstoolkit.Util.{safe_uint32}
use ecstoolkit.Util.Bounds.{safe_uint32_lem}
use ecstoolkit.Method.{continue}
use ecstoolkit.Session.{Support}
use ecstoolkit.Session.Shell.{
  SizeData, ShellState, Terminal, checked, converted, get_terminal_size, size_of, same_size,
  send_size, resize_round,
}

-- Two sizes are equal if both their columns and their rows are.
pub size_discrete : Discrete SizeData
size_discrete = hlevel ℕ_discrete

-- A terminal that has the given sizes one after another, and a session that notes what it sends.
pub record Script : Type 0 where
  pub sizes : List (Result (ℤ × ℤ))
  pub sent : List (ℕ × Bytes)

module _ (json : SizeData → Bytes) where
  abbrev pub next_size : List (Result (ℤ × ℤ)) → List (ℕ × Bytes) → Result (ℤ × ℤ) × Script
  next_size [] out = (err eof, record { sizes = []; sent = out })
  next_size (r ∷ rs) out = (r, record { sizes = rs; sent = out })

  abbrev pub scripted_terminal : Terminal Script
  scripted_terminal = record {
    terminal_sizer = λ s. next_size s.sizes s.sent;
    marshal_size = λ d. ok (json d);
    read_stdin = λ s. (err eof, s);
    stty_state = λ s. (ok [], s);
    stty = λ b s. (ok tt, s);
  }

  abbrev pub noting_session : Support Script
  noting_session = record {
    send_flag = λ n s. (ok tt, s);
    send_input_data_message = λ kind b s. (ok tt, record s { sent = s.sent ++ ((kind, b) ∷ []) });
    terminate_session = λ s. (ok tt, s);
    close = λ s. (ok tt, s);
    display_message = λ m s. (ok tt, s);
    agent_version = λ s. [];
  }

  unfoldable pub resize_rounds : ℕ → ShellState Script → ShellState Script
  resize_rounds zero s = s
  resize_rounds (suc n) s = resize_rounds n (resize_round noting_session scripted_terminal s).1

  -- From 1 to 2^32 - 1.
  abbrev pub fits : ℤ → Bool
  fits z = ltb_ℤ (pos 0) z && not (ltb_ℤ (pos (2 ^ 32 - 1)) z)

  -- What there is to see of a size: 300 by 100 where the terminal has none that fits.
  abbrev pub seen : Result (ℤ × ℤ) → SizeData
  seen (ok (width, height)) =
      if fits width && fits height
      then record { cols = pos_part width; rows = pos_part height }
      else record { cols = 300; rows = 100 }
  seen _ = record { cols = 300; rows = 100 }

  -- The sizes that differ from the one before in their columns or their rows, as messages.
  abbrev pub changes : SizeData → List (Result (ℤ × ℤ)) → List (ℕ × Bytes)
  changes last [] = []
  changes last (r ∷ rs) =
      let rest = changes (seen r) rs in
      ite (size_discrete last (seen r)) rest ((PayloadType.size, json (seen r)) ∷ rest)

  -- Go's `int` has 64 bits, and the terminal gives a size or an error.
  abbrev pub IsSize : Result (ℤ × ℤ) → Type 0
  IsSize (ok (width, height)) = IsInt64 width × IsInt64 height
  IsSize (err e) = Unit {0}
  IsSize panic = ⊥
  IsSize blocked = ⊥

  size_seen :
      (w h : ℤ) (s : Script)
      → IsInt64 w
      → IsInt64 h
      → size_of noting_session scripted_terminal
          (converted noting_session scripted_terminal (w, h) s).0
        ≡ seen (ok (w, h))
  unfolding converted checked
  size_seen (pos m) (pos n) s p q =
      rw (safe_uint32_lem (pos m) p) (rw (safe_uint32_lem (pos n) q) (ground arith))
  size_seen (pos m) (negsuc n) s p q =
      rw (safe_uint32_lem (pos m) p) (rw (safe_uint32_lem (negsuc n) q) (ground arith))
  size_seen (negsuc m) h s p q = rw (safe_uint32_lem (negsuc m) p) (ground arith)

  converted-outer :
      (z : ℤ × ℤ) (s : Script) → (converted noting_session scripted_terminal z s).1 ≡ s
  unfolding converted checked
  converted-outer z s = ground arith

  converted-Returns :
      (z : ℤ × ℤ) (s : Script) → Returns (converted noting_session scripted_terminal z s).0
  unfolding converted checked safe_uint32
  converted-Returns z s = ground arith

  -- What a round does after it has looked at the terminal.
  after_look : SizeData → List (Result (ℤ × ℤ)) → ShellState Script → ShellState Script
  after_look d rs s =
      if same_size noting_session scripted_terminal s.size_data d
      then record s { outer = record s.outer { sizes = rs } }
      else record s {
        size_data = d;
        outer = record { sizes = rs; sent = s.outer.sent ++ ((PayloadType.size, json d) ∷ []) };
      }

  looked :
      (r : Result (ℕ × ℕ)) (s : ShellState Script)
      → Returns r
      → (continue
          (attempted r)
          (λ x.
            send_size noting_session scripted_terminal (size_of noting_session scripted_terminal x))
          s).1
        ≡ after_look (size_of noting_session scripted_terminal r) s.outer.sizes s
  unfolding send_size after_look
  looked (ok x) s v = ground arith
  looked (err e) s v = ground arith
  looked panic s v = absurd v
  looked blocked s v = absurd v

  -- A look at the terminal takes a size from the script, and gives the size seen.
  look :
      (r : Result (ℤ × ℤ)) (rs : List (Result (ℤ × ℤ))) (out : List (ℕ × Bytes))
      → IsSize r
      → let got =
          get_terminal_size noting_session scripted_terminal
            (record { sizes = r ∷ rs; sent = out }) in
        (got.1 ≡ record { sizes = rs; sent = out })
        × (size_of noting_session scripted_terminal got.0 ≡ seen r)
        × Returns got.0
  unfolding get_terminal_size
  look (ok (w, h)) rs out v =
      let s : Script = record { sizes = rs; sent = out } in
      (converted-outer (w, h) s, size_seen w h s v.0 v.1, converted-Returns (w, h) s)
  look (err e) rs out v = (refl, refl, tt)
  look panic rs out v = absurd v
  look blocked rs out v = absurd v

  round_lem :
      (r : Result (ℤ × ℤ)) (rs : List (Result (ℤ × ℤ))) (s : ShellState Script)
      → IsSize r
      → (resize_round noting_session scripted_terminal
          (record s { outer = record { sizes = r ∷ rs; sent = s.outer.sent } })).1
        ≡ after_look (seen r) rs s
  unfolding resize_round after_look
  round_lem r rs s v =
      let got =
        get_terminal_size noting_session scripted_terminal
          (record { sizes = r ∷ rs; sent = s.outer.sent }) in
      let l = look r rs s.outer.sent v in
      looked got.0 (record s { outer = got.1 }) l.2
      ∙ ap
          (λ o.
            after_look (size_of noting_session scripted_terminal got.0) o.sizes
              (record s { outer = o }))
          l.0
      ∙ ap (λ d. after_look d rs (record s { outer = record { sizes = rs; sent = s.outer.sent } }))
          l.1

  same_size-eq : (a b : SizeData) → same_size noting_session scripted_terminal a b ≡ true → a ≡ b
  same_size-eq a b e = ground arith

  same_size-ne : (a b : SizeData) → same_size noting_session scripted_terminal a b ≡ false → a ≢ b
  same_size-ne a b e = λ q. ground arith

  rounds_lem :
      (rs : List (Result (ℤ × ℤ))) (s : ShellState Script)
      → All IsSize rs
      → (resize_rounds
          (length rs)
          (record s { outer = record { sizes = rs; sent = s.outer.sent } })).outer.sent
        ≡ s.outer.sent ++ changes s.size_data rs
  unfolding resize_rounds after_look
  rounds_lem [] s v = sym (append-nil s.outer.sent)
  rounds_lem (r ∷ rs) s v =
      ap (λ t. (resize_rounds (length rs) t).outer.sent) (round_lem r rs s v.0)
      ∙ elim (Bool-cases (same_size noting_session scripted_terminal s.size_data (seen r))) [
        | inl e ↦
            let q = same_size-eq s.size_data (seen r) e in
            rw (e, if_pos (size_discrete s.size_data (seen r)) q)
              (rounds_lem rs s v.1 ∙ ap (λ d. s.outer.sent ++ changes d rs) q)
        | inr e ↦
            let m : ℕ × Bytes = (PayloadType.size, json (seen r)) in
            let q = same_size-ne s.size_data (seen r) e in
            rw (e, if_neg (size_discrete s.size_data (seen r)) q)
              (rounds_lem rs
                  (record s {
                    size_data = seen r;
                    outer = record { sizes = rs; sent = s.outer.sent ++ (m ∷ []) };
                  })
                  v.1
                ∙ simp append_assoc)
      ]

  -- For every course of the terminal's sizes and errors, the size messages that go out are exactly the sizes
  -- seen that differ from the one before, in their order, after what had been sent. A size that does not fit
  -- in 1 to 2^32 - 1, and an error, are seen as 300 by 100.
  pub resize-changes :
      (rs : List (Result (ℤ × ℤ))) (s : ShellState Script)
      → All IsSize rs
      → s.outer.sizes ≡ rs
      → (resize_rounds (length rs) s).outer.sent ≡ s.outer.sent ++ changes s.size_data rs
  resize-changes rs s v e =
      subst
        (λ x.
          (resize_rounds (length rs)
            (record s { outer = record { sizes = x; sent = s.outer.sent } })).outer.sent
          ≡ s.outer.sent ++ changes s.size_data rs)
        (sym e) (rounds_lem rs s v)
