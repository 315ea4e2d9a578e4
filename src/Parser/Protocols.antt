-- ===== src/Parser/Protocols.antt =====
-- Frames under the signals of the protocols.
use rpi_speeduino_dashboard.Common.{
  arith, ℕ, ◌+◌, ◌/◌, ◌%◌, ◌^◌, ◌≡◌, refl, sym, ap, ◌∙◌, subst, Bool, true, false, ◌&&◌, ◌||◌, List,
  [], ◌∷◌, All, Option, none, some, String, str_eq, if-elim, ltb, leb, ◌==◌,
}
use mathlib.Core.List.{Permᴰ}
use rpi_speeduino_dashboard.Common.Int.{ℤ, Ratio, scale_ℤ}
use rpi_speeduino_dashboard.Bus.{CanFrame, IsPayload}
use rpi_speeduino_dashboard.Parser.Extract.{CanSignalDef, bytes_needed, signed_value}
use rpi_speeduino_dashboard.Parser.Numbers.{number_of, extract_raw_value-number}
use rpi_speeduino_dashboard.Parser.Engine.{
  update_engine_data, get_value, measured, is_set, value_or_zero, new_engine_data,
}
use rpi_speeduino_dashboard.Parser.Warnings.{one, flags_of-digits}
use rpi_speeduino_dashboard.Parser.Values.{
  value_of, new_parser, find_value, unread_all, unread, Parser, apply_scaling, read_signal, scaled,
  parse_frame, load_signals, get_signal_value,
}
use rpi_speeduino_dashboard.Parser.Store.{IsRead, IsOther, parse_frame-get_signal_value}
use rpi_speeduino_dashboard.Parser.Database.{
  create_haltech_signals, create_bmw_signals, create_vag_signals, get_signals_for_protocol,
}

-- A signal of 1 to 63 bits that starts in the first byte's bits and lies in eight bytes.
abbrev is_readable : CanSignalDef → Bool
is_readable s =
    (leb 1 s.length_bits && ltb s.length_bits 64)
    && (ltb s.start_bit 8 && leb (s.start_byte + bytes_needed s.length_bits) 8)

abbrev all_readable : List CanSignalDef → Bool
all_readable [] = true
all_readable (s ∷ ss) = is_readable s && all_readable ss

signed_value-read :
    (raw : ℕ) (s : CanSignalDef) → is_readable s ≡ true → (v : ℤ) × (signed_value raw s ≡ some v)
unfolding signed_value
signed_value-read raw s e =
    let Defined : Option ℤ → Type 0 = λ o. (v : ℤ) × (o ≡ some v) in
    if-elim Defined s.is_signed
      (λ g.
        if-elim Defined (s.length_bits == 0 || leb 64 s.length_bits)
          (λ b. absurd (ground (arith, e, b))) (λ b. (_, refl)))
      (λ g. (_, refl))

readable-IsRead :
    (f : CanFrame) (s : CanSignalDef)
    → IsPayload f.bytes
    → f.dlc ≡ 8
    → is_readable s ≡ true
    → IsRead f s
unfolding read_signal apply_scaling
readable-IsRead f s p dlc e same =
    let number =
      extract_raw_value-number f s p (omega (arith, dlc)) (ground (arith, e)) (ground (arith, e))
        (ground (arith, e)) (ground (arith, e, dlc)) in
    let (v, signed) = signed_value-read (number_of f s / 2 ^ s.start_bit % 2 ^ s.length_bits) s e in
    (scaled s v, rw (number, read_signal) (rw (signed, apply_scaling) refl))

all_readable-IsRead :
    (f : CanFrame) (ss : List CanSignalDef)
    → IsPayload f.bytes
    → f.dlc ≡ 8
    → all_readable ss ≡ true
    → All (IsRead f) ss
all_readable-IsRead f [] p dlc e = tt
all_readable-IsRead f (s ∷ ss) p dlc e = (
  readable-IsRead f s p dlc (ground (arith, e)),
  all_readable-IsRead f ss p dlc (ground (arith, e)),
)

-- The multimap holds the signals that were loaded, in some order.
abbrev pub Arranges : (List CanSignalDef → List CanSignalDef) → Type 0
Arranges arrange = (ss : List CanSignalDef) → Permᴰ ss (arrange ss)

and_swap : (a b c : Bool) → (a && (b && c)) ≡ (b && (a && c))
and_swap true true c = refl
and_swap true false c = refl
and_swap false true c = refl
and_swap false false c = refl

or_swap : (a b c : Bool) → (a || (b || c)) ≡ (b || (a || c))
or_swap true true c = refl
or_swap true false c = refl
or_swap false true c = refl
or_swap false false c = refl

all_readable-Perm : {ss ts : List CanSignalDef} → Permᴰ ss ts → all_readable ss ≡ all_readable ts
all_readable-Perm Permᴰ.nil = refl
all_readable-Perm (Permᴰ.cons {b = b} {l₁ = l₁} e d) =
    ap (λ s. is_readable s && all_readable l₁) e
    ∙ ap (λ r. is_readable b && r) (all_readable-Perm d)
all_readable-Perm (Permᴰ.swap {a = a} {b = b} {a' = a'} {b' = b'} {l = l} e h) =
    and_swap (is_readable a) (is_readable b) (all_readable l)
    ∙ ap (λ s. is_readable s && (is_readable a && all_readable l)) h
    ∙ ap (λ s. is_readable a' && (is_readable s && all_readable l)) e
all_readable-Perm (Permᴰ.trans d r) = all_readable-Perm d ∙ all_readable-Perm r

protocol_readable : (protocol : String) → all_readable (get_signals_for_protocol protocol) ≡ true
unfolding get_signals_for_protocol create_haltech_signals create_bmw_signals create_vag_signals
protocol_readable protocol =
    let Readable : List CanSignalDef → Type 0 = λ ss. all_readable ss ≡ true in
    if-elim Readable (str_eq protocol "haltech") (λ e. refl)
      (λ e.
        if-elim Readable (str_eq protocol "bmw") (λ e. refl)
          (λ e. if-elim Readable (str_eq protocol "vag") (λ e. refl) (λ e. refl)))

-- Under the signals of any protocol, a frame of eight bytes is parsed: no signal reads past it, and
-- none needs a shift that has no defined result, in whatever order the multimap has the signals.
pub parse_frame-protocol :
    (arrange : List CanSignalDef → List CanSignalDef)
    → Arranges arrange
    → (protocol : String) (now : ℕ) (f : CanFrame) (p : Parser) → IsPayload f.bytes
    → f.dlc ≡ 8
    → (q : Parser) × (parse_frame now f (load_signals arrange (get_signals_for_protocol protocol) p)
        ≡ some q)
      × (q.last_update ≡ now)
unfolding load_signals
parse_frame-protocol arrange any protocol now f p payload dlc =
    let loaded : Parser = load_signals arrange (get_signals_for_protocol protocol) p in
    let (q, parsed, _, _, last, _, _) =
      parse_frame-get_signal_value now f loaded (omega (arith, dlc)) (
        all_readable-IsRead f loaded.signals payload dlc (
          sym (all_readable-Perm (any (get_signals_for_protocol protocol)))
          ∙ protocol_readable protocol)) in
    (q, parsed, last)

-- The frames with the times at which they are parsed.
unfoldable pub parse_frames : List (ℕ × CanFrame) → Parser → Option Parser
parse_frames [] p = some p
parse_frames ((now, f) ∷ fs) p = elim (parse_frame now f p) [
  | none ↦ none
  | some q ↦ parse_frames fs q
]

abbrev pub IsWhole : ℕ × CanFrame → Type 0
IsWhole (now, f) = IsPayload f.bytes × (f.dlc ≡ 8)

-- The signals of BMW are loaded, and the two names of the engine light have no value.
record IsDark (arrange : List CanSignalDef → List CanSignalDef) (p : Parser) : Type 0 where
  signals : p.signals ≡ arrange create_bmw_signals
  cel_flag : get_signal_value "cel_flag" p ≡ none
  check_engine : get_signal_value "check_engine" p ≡ none
  light : p.engine.flags % 2 ≡ 0

abbrev has_name : String → List CanSignalDef → Bool
has_name name [] = false
has_name name (s ∷ ss) = str_eq s.name name || has_name name ss

has_name-Perm :
    (name : String) {ss ts : List CanSignalDef} → Permᴰ ss ts → has_name name ss ≡ has_name name ts
has_name-Perm name Permᴰ.nil = refl
has_name-Perm name (Permᴰ.cons {b = b} {l₁ = l₁} e d) =
    ap (λ s. str_eq s.name name || has_name name l₁) e
    ∙ ap (λ r. str_eq b.name name || r) (has_name-Perm name d)
has_name-Perm name (Permᴰ.swap {a = a} {b = b} {a' = a'} {b' = b'} {l = l} e h) =
    or_swap (str_eq a.name name) (str_eq b.name name) (has_name name l)
    ∙ ap (λ s. str_eq s.name name || (str_eq a.name name || has_name name l)) h
    ∙ ap (λ s. str_eq a'.name name || (str_eq s.name name || has_name name l)) e
has_name-Perm name (Permᴰ.trans d r) = has_name-Perm name d ∙ has_name-Perm name r

nameless-IsOther :
    (f : CanFrame) (name : String) (ss : List CanSignalDef)
    → has_name name ss ≡ false
    → All (IsOther f name) ss
nameless-IsOther f name [] e = tt
nameless-IsOther f name (s ∷ ss) e =
    ((λ same. ground (arith, e)), nameless-IsOther f name ss (ground (arith, e)))

no_cel_flag : has_name "cel_flag" create_bmw_signals ≡ false
unfolding create_bmw_signals
no_cel_flag = refl

no_check_engine : has_name "check_engine" create_bmw_signals ≡ false
unfolding create_bmw_signals
no_check_engine = refl

bmw_readable : all_readable create_bmw_signals ≡ true
unfolding create_bmw_signals
bmw_readable = refl

-- Without a value for the two names the bit of the engine light is not set.
dark_light :
    (now : ℕ) (lookup : String → Option Ratio)
    → lookup "cel_flag" ≡ none
    → lookup "check_engine" ≡ none
    → (update_engine_data lookup now).flags % 2 ≡ 0
unfolding update_engine_data get_value scale_ℤ
dark_light now lookup cel check =
    let (_, _, _, _, _, light) = flags_of-digits lookup (measured lookup now) in
    light
    ∙ ap (λ o. one (is_set (value_or_zero o) || is_set (value_or_zero (lookup "check_engine")))) cel
    ∙ ap (λ o. one (false || is_set (value_or_zero o))) check

IsDark-parse_frame :
    (arrange : List CanSignalDef → List CanSignalDef)
    → Arranges arrange
    → (now : ℕ) (f : CanFrame) (p : Parser) → IsWhole (now, f)
    → IsDark arrange p
    → (q : Parser) × (parse_frame now f p ≡ some q) × IsDark arrange q
unfolding get_signal_value
IsDark-parse_frame arrange any now f p (payload, dlc) d =
    let same = any create_bmw_signals in
    let read =
      all_readable-IsRead f (arrange create_bmw_signals) payload dlc
        (sym (all_readable-Perm same) ∙ bmw_readable) in
    let (q, parsed, _, kept, _, engine, signals) =
      parse_frame-get_signal_value now f p (omega (arith, dlc))
        (subst (All (IsRead f)) (sym d.signals) read) in
    let cel =
      kept "cel_flag" (
        subst (All (IsOther f "cel_flag")) (sym d.signals)
          (nameless-IsOther f "cel_flag" _ (sym (has_name-Perm "cel_flag" same) ∙ no_cel_flag)))
      ∙ d.cel_flag in
    let check =
      kept "check_engine" (
        subst (All (IsOther f "check_engine")) (sym d.signals) (
          nameless-IsOther f "check_engine" _
            (sym (has_name-Perm "check_engine" same) ∙ no_check_engine)))
      ∙ d.check_engine in
    (
      q,
      parsed,
      record {
        signals = signals ∙ d.signals;
        cel_flag = cel;
        check_engine = check;
        light = ap (λ e. e.flags % 2) engine ∙ dark_light now (value_of q.values) cel check;
      },
    )

IsDark-parse_frames :
    (arrange : List CanSignalDef → List CanSignalDef)
    → Arranges arrange
    → (fs : List (ℕ × CanFrame)) (p : Parser) → All IsWhole fs
    → IsDark arrange p
    → (q : Parser) × (parse_frames fs p ≡ some q) × IsDark arrange q
unfolding parse_frames
IsDark-parse_frames arrange any [] p whole d = (p, refl, d)
IsDark-parse_frames arrange any ((now, f) ∷ fs) p whole d =
    let (q, parsed, dark) = IsDark-parse_frame arrange any now f p whole.0 d in
    let (r, rest, last) = IsDark-parse_frames arrange any fs q whole.1 dark in
    (r, rw (parsed, parse_frames) rest, last)

loaded-IsDark :
    (arrange : List CanSignalDef → List CanSignalDef)
    → IsDark arrange (load_signals arrange (get_signals_for_protocol "bmw") new_parser)
unfolding load_signals get_signals_for_protocol new_parser new_engine_data get_signal_value
    find_value unread_all unread create_bmw_signals
loaded-IsDark arrange = record {
  signals = refl;
  cel_flag = refl;
  check_engine = refl;
  light = refl;
}

-- With the signals of BMW loaded into a new parser, after any frames of eight bytes, at any times, the
-- frames are parsed and the bit of the check engine light is not set, whatever the signal "cel_status"
-- says, which is stored under a name that nothing reads, in whatever order the multimap has the signals.
pub parse_frames-bmw :
    (arrange : List CanSignalDef → List CanSignalDef)
    → Arranges arrange
    → (fs : List (ℕ × CanFrame)) → All IsWhole fs
    → (q : Parser) × (parse_frames fs
          (load_signals arrange (get_signals_for_protocol "bmw") new_parser)
        ≡ some q)
      × (q.engine.flags % 2 ≡ 0)
parse_frames-bmw arrange any fs whole =
    let (q, parsed, d) = IsDark-parse_frames arrange any fs _ whole (loaded-IsDark arrange) in
    (q, parsed, d.light)
