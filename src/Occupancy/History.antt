-- ===== src/Occupancy/History.antt =====
-- A server's life as the calls that reach it, in the order of their commits.
use unified_service_schedule.Common.{ℕ, String, Bool, List, [], ◌∷◌, arith}
use unified_service_schedule.Occupancy.{Table, update_confirmed, update_released, delete_expired}
use unified_service_schedule.Occupancy.Claim.{Turn}
use unified_service_schedule.Occupancy.Claim.Sound.{Honest}
use unified_service_schedule.Occupancy.Handlers.{confirm, release}
use unified_service_schedule.Occupancy.Steps.{
  Reach, Reach-trans, start, next, Apart, no_double_booking,
}
use unified_service_schedule.Occupancy.Steps as Steps
use unified_service_schedule.Reaper.{tick}

-- Each call with its server's clock, its faults and its surroundings.
pub data Call (Req : Type 0) : Type 0 where
  reserves : ℕ → (ℕ → Turn) → Req → Call Req
  confirms : Bool → ℕ → String → Call Req
  releases : Bool → String → Call Req
  ticks : Bool → ℕ → Call Req

-- What other servers do during the call are their own statements.
abbrev pub HonestCall : {Req : Type 0} → Call Req → Type 0
HonestCall (reserves now turns req) = (k : ℕ) → Honest (turns k)
HonestCall _ = Unit {0}

abbrev pub HonestCalls : {Req : Type 0} → List (Call Req) → Type 0
HonestCalls [] = Unit {0}
HonestCalls (c ∷ cs) = HonestCall c × HonestCalls cs

confirm-Reach :
    (fails : Bool) (now : ℕ) (id : String) (t : Table) → Reach t (confirm fails now id t).1
unfolding confirm
confirm-Reach fails now id t =
    let untouched : Reach t t = start in
    let confirmed : Reach t (update_confirmed now id t).1 = next start (Steps.confirm now id) in
    ground (arith, untouched, confirmed)

release-Reach : (fails : Bool) (id : String) (t : Table) → Reach t (release fails id t).1
unfolding release
release-Reach fails id t =
    let untouched : Reach t t = start in
    let freed : Reach t (update_released id t) = next start (Steps.release id) in
    ground (arith, untouched, freed)

tick-Reach : (fails : Bool) (now : ℕ) (t : Table) → Reach t (tick fails now t)
unfolding tick
tick-Reach fails now t =
    let untouched : Reach t t = start in
    let reaped : Reach t (delete_expired now t) = next start (Steps.reap now) in
    ground (arith, untouched, reaped)

module _ {Req : Type 0} (reserve : ℕ → (ℕ → Turn) → Req → Table → Table) where
  unfoldable pub serve : Call Req → Table → Table
  serve (reserves now turns req) t = reserve now turns req t
  serve (confirms fails now id) t = (confirm fails now id t).1
  serve (releases fails id) t = (release fails id t).1
  serve (ticks fails now) t = tick fails now t

  unfoldable pub run : List (Call Req) → Table → Table
  unfolding serve
  run [] t = t
  run (c ∷ cs) t = run cs (serve c t)

  module _
      (reserve-Reach : (now : ℕ) (turns : ℕ → Turn) (req : Req) (t : Table)
        → ((k : ℕ) → Honest (turns k))
        → Reach t (reserve now turns req t)) where
    serve-Reach : (c : Call Req) (t : Table) → HonestCall c → Reach t (serve c t)
    unfolding serve
    serve-Reach (reserves now turns req) t h = reserve-Reach now turns req t h
    serve-Reach (confirms fails now id) t h = confirm-Reach fails now id t
    serve-Reach (releases fails id) t h = release-Reach fails id t
    serve-Reach (ticks fails now) t h = tick-Reach fails now t

    pub run-Reach : (cs : List (Call Req)) (t : Table) → HonestCalls cs → Reach t (run cs t)
    unfolding run
    run-Reach [] t h = start
    run-Reach (c ∷ cs) t h = Reach-trans (serve-Reach c t h.0) (run-Reach cs (serve c t) h.1)
