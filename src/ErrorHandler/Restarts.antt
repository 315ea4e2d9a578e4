-- ===== src/ErrorHandler/Restarts.antt =====
-- Which names `triggerRecovery` accepts, and what it asks of the kernel.
use rpi_speeduino_dashboard.Common.{
  ℕ, zero, suc, ◌-◌, ◌≤◌, ◌<◌, ◌≡◌, ◌≢◌, ◌↔◌, ◌⊎◌, refl, sym, subst, inl, inr, Bool, true, false,
  ◌&&◌, none, some, List, [], ◌∷◌, length, All, arith, if◌then◌else◌, Bool-cases,
}
use rpi_speeduino_dashboard.ErrorHandler.Recovery.{
  System, Answers, Call, close_socket, get_index, get_flags, set_flags, take, scan_name,
  is_accepted, on_socket, trigger_recovery,
}

-- A name that fits is copied whole.
take-all : (n : ℕ) (cs : List ℕ) → length cs ≤ n → take n cs ≡ cs
unfolding take
take-all zero [] h = refl
take-all zero (c ∷ cs) h = absurd (omega arith)
take-all (suc n) [] h = refl
take-all (suc n) (c ∷ cs) h = rw (take-all n cs (omega arith))

module _ (y : System) where
  abbrev pub IsLetterOrDigit : ℕ → Type 0
  IsLetterOrDigit c = (y.is_alpha c ≡ true) ⊎ (y.is_digit c ≡ true)

  abbrev pub HasLetter : List ℕ → Type 0
  HasLetter [] = ⊥
  HasLetter (c ∷ cs) = (y.is_alpha c ≡ true) ⊎ HasLetter cs

  scan_name-some :
      (b : Bool) (cs : List ℕ)
      → scan_name y b cs ≡ some true
      → All IsLetterOrDigit cs × ((b ≡ true) ⊎ HasLetter cs)
  unfolding scan_name
  scan_name-some b [] h = (tt, inl (ground arith))
  scan_name-some b (c ∷ cs) h = ground (arith, scan_name-some true cs, scan_name-some b cs)

  -- A name that passes the check is not empty, fits `ifr_name` with its terminator, consists of
  -- letters and digits, and has a letter.
  pub is_accepted-safe :
      (cs : List ℕ)
      → is_accepted y cs ≡ true
      → (0 < length cs) × (length cs ≤ y.if_name_size - 1) × All IsLetterOrDigit cs × HasLetter cs
  unfolding is_accepted
  is_accepted-safe [] h = cc
  is_accepted-safe (c ∷ cs) h = ground (arith, scan_name-some false (c ∷ cs))

  scan_name-accepts :
      (b : Bool) (cs : List ℕ)
      → All IsLetterOrDigit cs
      → (b ≡ true) ⊎ HasLetter cs
      → scan_name y b cs ≡ some true
  unfolding scan_name
  scan_name-accepts b [] h l = ground arith
  scan_name-accepts b (c ∷ cs) h l =
      ground (arith, scan_name-accepts true cs h.1, scan_name-accepts b cs h.1)

  -- The check accepts exactly the names that are not empty, fit `ifr_name` with its terminator,
  -- consist of letters and digits, and have a letter.
  is_accepted_iff :
      (cs : List ℕ)
      → (is_accepted y cs ≡ true) ↔ (
          (0 < length cs)
          × (length cs ≤ y.if_name_size - 1)
          × All IsLetterOrDigit cs
          × HasLetter cs)
  is_accepted_iff cs = (is_accepted-safe cs, is_accepted-complete cs)
    where
      is_accepted-complete :
          (ds : List ℕ)
          → (0 < length ds)
            × (length ds ≤ y.if_name_size - 1)
            × All IsLetterOrDigit ds
            × HasLetter ds
          → is_accepted y ds ≡ true
      is_accepted-complete [] h = absurd (omega arith)
      is_accepted-complete (c ∷ ds) h =
          unfold is_accepted in ground (arith, scan_name-accepts false (c ∷ ds) h.2 (inr h.3))

  -- How often a list of calls closes the socket.
  abbrev closings : List Call → ℕ
  closings [] = 0
  closings (close_socket ∷ cs) = suc (closings cs)
  closings (_ ∷ cs) = closings cs

  -- A call for an interface names this one.
  abbrev IsFor : List ℕ → Call → Type 0
  IsFor name (get_index n) = n ≡ name
  IsFor name (get_flags n) = n ≡ name
  IsFor name (set_flags n f) = n ≡ name
  IsFor name _ = Unit {0}

  abbrev Recovers : List ℕ → Answers → Bool → Bool × List Call → Type 0
  Recovers name a accepted (done, calls) =
      ((done ≡ true) ↔ (
        (accepted ≡ true)
        × (a.socket ≡ true)
        × (a.index ≡ true)
        × (a.flags ≢ none)
        × (a.down ≡ true)
        × (a.up ≡ true)))
      × ((accepted ≡ true) ⊎ (calls ≡ []))
      × (closings calls ≡ (if accepted && a.socket then 1 else 0))
      × All (IsFor name) calls

  on_socket-Recovers : (name : List ℕ) (a : Answers) → Recovers name a true (on_socket y name a)
  unfolding on_socket
  on_socket-Recovers name a = ground arith

  -- The recovery succeeds exactly when the name is accepted and the kernel grants every call; a
  -- refused name reaches the kernel by no call; a socket that was opened is closed exactly once,
  -- whatever fails; and each call for an interface carries the whole name.
  pub trigger_recovery_lem :
      (name : List ℕ) (a : Answers)
      → let (done, calls) = trigger_recovery y name a in
        ((done ≡ true) ↔ (
          (is_accepted y name ≡ true)
          × (a.socket ≡ true)
          × (a.index ≡ true)
          × (a.flags ≢ none)
          × (a.down ≡ true)
          × (a.up ≡ true)))
        × ((is_accepted y name ≡ true) ⊎ (calls ≡ []))
        × (closings calls ≡ (if is_accepted y name && a.socket then 1 else 0))
        × All (IsFor name) calls
  unfolding trigger_recovery on_socket
  trigger_recovery_lem name a = elim (Bool-cases (is_accepted y name)) [
    | inl e ↦ rw e (
        subst (λ n. Recovers name a true (on_socket y n a))
          (sym (take-all (y.if_name_size - 1) name ((is_accepted-safe name e).1)))
          (on_socket-Recovers name a))
    | inr e ↦ rw e (ground arith)
  ]
