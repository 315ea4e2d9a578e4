-- ===== src/Watchdog/Examples.antt =====
-- The watchdog's rounds at concrete values.
use rpi_speeduino_dashboard.Common.{arith, ℕ, ◌≡◌, refl, true, List, [], ◌∷◌, All, some}
use rpi_speeduino_dashboard.Watchdog.Notifier.{
  Notifier, new_notifier, start, stop, notify, notify_ready, notify_stopping, notify_reloading,
  set_status, Check, unset, answers, throws, chunks, notify_loop,
}
use rpi_speeduino_dashboard.Watchdog.Rounds.{
  IsAfter, IsSleep, IsFull, healthy_count, sick_count, beats, notify_loop-counts,
}

-- A timeout of half a second: a sleep of a quarter.
abbrev half_second : Notifier
half_second = new_notifier (some 500000)

half_second_on : half_second.enabled ≡ true
unfolding new_notifier
half_second_on = refl

abbrev three_rounds : List (Check × ℕ)
three_rounds = (unset, 3) ∷ (throws, 4) ∷ (answers true, 3) ∷ []

three_rounds-IsFull : All (IsFull half_second.interval) three_rounds
unfolding new_notifier
three_rounds-IsFull = (omega arith, (omega arith, (omega arith, tt)))

notify_loop-counts_example :
    let (sleeps, m) = notify_loop three_rounds half_second in
    IsAfter half_second
      (healthy_count three_rounds)
      (sick_count three_rounds)
      (beats three_rounds half_second.messages)
      m
    × All (IsSleep half_second.interval) sleeps
notify_loop-counts_example =
    notify_loop-counts three_rounds half_second half_second_on three_rounds-IsFull

pieces : chunks 3 250000 ≡ 100000 ∷ 100000 ∷ 50000 ∷ []
unfolding chunks
pieces = refl

-- A second start does nothing, and a stop tells systemd once.
messages :
    (stop (stop (set_status "ok" (start (start half_second).0).0))).messages
    ≡ "STOPPING=1" ∷ "STATUS=ok" ∷ "READY=1" ∷ []
unfolding stop start set_status notify_ready notify_stopping new_notifier
messages = refl

reloading : (notify_reloading (notify half_second)).messages ≡ "RELOADING=1" ∷ "WATCHDOG=1" ∷ []
unfolding notify_reloading notify new_notifier
reloading = refl
