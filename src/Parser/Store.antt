-- ===== src/Parser/Store.antt =====
-- What `parseFrame` stores, and what `getSignalValue` finds.
use rpi_speeduino_dashboard.Common.{
  arith, ℕ, ◌+◌, ◌≤◌, ◌<◌, ◌≡◌, refl, sym, ap, ◌∙◌, subst, true, false, List, [], ◌∷◌, ◌++◌, All,
  Option, none, some, String, str_eq, if◌then◌else◌, ltb, ◌==◌, inl, inr, Bool-cases, u32,
}
use text.Mathlib.TextPositions.{compare_refl}
use text.Mathlib.Text.{is_eq}
use rpi_speeduino_dashboard.Common.Int.{Ratio}
use rpi_speeduino_dashboard.Bus.{CanFrame}
use rpi_speeduino_dashboard.Parser.Extract.{CanSignalDef}
use rpi_speeduino_dashboard.Parser.Engine.{update_engine_data}
use rpi_speeduino_dashboard.Parser.Values.{
  value_of, ParsedSignal, Parser, find_value, get_signal_value, valid_value, read_signal, parsed,
  store_signals, parse_frame, is_data_fresh,
}

str_eq_refl : (s : String) → str_eq s s ≡ true
str_eq_refl s = ap is_eq (compare_refl s)

module _ (f : CanFrame) where
  -- A signal that is in the frame, if it is of the frame's identifier.
  abbrev pub IsRead : CanSignalDef → Type 0
  IsRead s = s.can_id ≡ f.id → (r : Ratio) × (read_signal f s ≡ some r)

  store_signals-read :
      (s : CanSignalDef) (ss : List CanSignalDef) (vs : List ParsedSignal) (r : Ratio)
      → s.can_id ≡ f.id
      → read_signal f s ≡ some r
      → store_signals f (s ∷ ss) vs ≡ store_signals f ss (parsed f s r ∷ vs)
  unfolding store_signals
  store_signals-read s ss vs r same e =
      let here : (s.can_id == f.id) ≡ true = ground arith in
      rw (here, store_signals) (rw (e, store_signals) refl)

  store_signals-skip :
      (s : CanSignalDef) (ss : List CanSignalDef) (vs : List ParsedSignal)
      → (s.can_id == f.id) ≡ false
      → store_signals f (s ∷ ss) vs ≡ store_signals f ss vs
  unfolding store_signals
  store_signals-skip s ss vs e = rw (e, store_signals) refl

  -- A signal is stored, or passed over.
  store_signals-cons :
      (s : CanSignalDef) (ss : List CanSignalDef) (vs : List ParsedSignal)
      → IsRead s
      → (ws : List ParsedSignal) × (store_signals f (s ∷ ss) vs ≡ store_signals f ss ws)
        × ((name : String)
            → (s.can_id ≡ f.id → str_eq s.name name ≡ false)
            → find_value name ws ≡ find_value name vs)
  unfolding find_value
  store_signals-cons s ss vs read = elim (Bool-cases (s.can_id == f.id)) [
    | inl here ↦
        let same : s.can_id ≡ f.id = ground arith in
        let (r, e) = read same in
        (
          parsed f s r ∷ vs,
          store_signals-read s ss vs r same e,
          λ name other.
              ap (λ b. if b then some (parsed f s r) else find_value name vs) (other same),
        )
    | inr elsewhere ↦ (vs, store_signals-skip s ss vs elsewhere, λ name other. refl)
  ]

  -- Signals of other names leave a value alone.
  abbrev pub IsOther : String → CanSignalDef → Type 0
  IsOther name s = s.can_id ≡ f.id → str_eq s.name name ≡ false

  store_signals-IsOther :
      (ss : List CanSignalDef) (vs : List ParsedSignal)
      → All IsRead ss
      → (ws : List ParsedSignal) × (store_signals f ss vs ≡ some ws)
        × ((name : String) → All (IsOther name) ss → find_value name ws ≡ find_value name vs)
  unfolding store_signals
  store_signals-IsOther [] vs read = (vs, refl, λ name other. refl)
  store_signals-IsOther (s ∷ ss) vs read =
      let (us, step, kept) = store_signals-cons s ss vs read.0 in
      let (ws, rest, same) = store_signals-IsOther ss us read.1 in
      (ws, step ∙ rest, λ name other. same name other.1 ∙ kept name other.0)

  store_signals-found :
      (pre post : List CanSignalDef) (s : CanSignalDef) (vs : List ParsedSignal) (r : Ratio)
      → All IsRead (pre ++ s ∷ post)
      → s.can_id ≡ f.id
      → read_signal f s ≡ some r
      → All (IsOther s.name) post
      → (ws : List ParsedSignal) × (store_signals f (pre ++ s ∷ post) vs ≡ some ws)
        × (find_value s.name ws ≡ some (parsed f s r))
  unfolding find_value
  store_signals-found [] post s vs r read same e other =
      let (ws, rest, kept) = store_signals-IsOther post (parsed f s r ∷ vs) read.1 in
      (
        ws,
        store_signals-read s post vs r same e ∙ rest,
        kept s.name other
            ∙ ap (λ b. if b then some (parsed f s r) else find_value s.name vs)
                (str_eq_refl s.name),
      )
  store_signals-found (t ∷ pre) post s vs r read same e other =
      let (us, step, _) = store_signals-cons t (pre ++ s ∷ post) vs read.0 in
      let (ws, rest, found) = store_signals-found pre post s us r read.1 same e other in
      (ws, step ∙ rest, found)

IsRead-middle :
    (f : CanFrame) (pre post : List CanSignalDef) (s : CanSignalDef)
    → All (IsRead f) (pre ++ s ∷ post)
    → IsRead f s
IsRead-middle f [] post s all = all.0
IsRead-middle f (t ∷ pre) post s all = IsRead-middle f pre post s all.1

abbrev values_or : List ParsedSignal → Option (List ParsedSignal) → List ParsedSignal
values_or vs none = vs
values_or vs (some ws) = ws

-- A frame of at most 64 bytes, in which the signals of its identifier can be read, whatever order the
-- multimap has them in: afterwards each signal of the identifier, unless one that comes after it in
-- that order has its name, has the value that is read for it from the frame, every name that no
-- signal of the identifier has keeps its value, the engine data is built from the values, and the
-- time is that of the call.
pub parse_frame-get_signal_value :
    (now : ℕ) (f : CanFrame) (p : Parser)
    → f.dlc ≤ 64
    → All (IsRead f) p.signals
    → (q : Parser) × (parse_frame now f p ≡ some q)
      × ((pre post : List CanSignalDef) (s : CanSignalDef)
          → p.signals ≡ pre ++ s ∷ post
          → s.can_id ≡ f.id
          → All (IsOther f s.name) post
          → get_signal_value s.name q ≡ read_signal f s)
      × ((name : String)
          → All (IsOther f name) p.signals
          → get_signal_value name q ≡ get_signal_value name p)
      × (q.last_update ≡ now)
      × (q.engine ≡ update_engine_data (value_of q.values) now)
      × (q.signals ≡ p.signals)
unfolding parse_frame get_signal_value
parse_frame-get_signal_value now f p dlc read =
    let (vs, stored, kept) = store_signals-IsOther f p.signals p.values read in
    let short : ltb 64 f.dlc ≡ false = ground arith in
    (
      record p { values = vs; last_update = now; engine = update_engine_data (value_of vs) now },
      rw (short, parse_frame) (rw (stored, parse_frame) refl),
      (λ pre post s split same other.
          let all : All (IsRead f) (pre ++ s ∷ post) = subst (All (IsRead f)) split read in
          let (r, e) = IsRead-middle f pre post s all same in
          let (ws, again, found) = store_signals-found f pre post s p.values r all same e other in
          let one : ws ≡ vs =
            ap (values_or vs)
              (sym again ∙ ap (λ ss. store_signals f ss p.values) (sym split) ∙ stored) in
          ap (λ us. valid_value (find_value s.name us)) (sym one) ∙ ap valid_value found ∙ sym e),
      (λ name other. ap valid_value (kept name other)),
      refl,
      refl,
      refl,
    )

-- The clock counts milliseconds in 32 bits and wraps. Less than 2 ^ 32 ms after the last frame, the
-- data is fresh exactly when less than the timeout has passed, across a wrap too.
is_data_fresh-elapsed :
    (t elapsed timeout_ms : ℕ) (p : Parser)
    → p.last_update ≡ u32 t
    → elapsed < 4294967296
    → is_data_fresh (u32 (t + elapsed)) timeout_ms p ≡ ltb elapsed timeout_ms
unfolding is_data_fresh
is_data_fresh-elapsed t elapsed timeout_ms p last h =
    ap (λ n. ltb n timeout_ms) (omega (arith, last))
