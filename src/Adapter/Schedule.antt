-- ===== src/Adapter/Schedule.antt =====
-- atb_adapter/cms_client.cpp and server_tcpsrv.cpp: what is true of every client that the look at
-- the start of a turn leaves.
use vm.Prelude.{
  ℕ, ◌+◌, ◌-◌, ◌^◌, ◌%◌, ◌≤◌, ◌≡◌, ◌≢◌, ◌⊎◌, refl, inl, inr, Bool, true, false, Option, List, [],
  ◌∷◌, All, Map, arith, Bool-cases,
}
use vm.Prelude.Exec.{ok}
use vm.Prelude.Text.{Text, is_empty}
use vm.Adapter.Clock.{Between, check_internal_iff}
use vm.Adapter.Wire.{Frame}
use vm.Adapter.Client.{pushing, DeviceNode, CmsClient, is_over, stop_over, is_silent}
use vm.Adapter.Server.{TcpServer}
use vm.Adapter.Refresh.{Checked, check_state, refresh_clients, refresh}

module _ (seconds : Text → Option ℕ) where
  -- The camera does not play, has no schedule, or plays within one of the two sections of its schedule.
  abbrev pub MayStay : Text → DeviceNode → Type 0
  MayStay time d =
      (d.state ≢ pushing)
      ⊎ ((d.allday ≢ 0)
          ⊎ ((is_empty d.s0 ≡ true)
              ⊎ (Between (seconds d.s0) (seconds time) (seconds d.e0)
                  ⊎ ((is_empty d.s1 ≡ false)
                      × Between (seconds d.s1) (seconds time) (seconds d.e1)))))

  -- Heard of in the last 20 seconds, by the clock's 64-bit word, and every camera may stay as it is.
  abbrev pub InTime : ℕ → Text → CmsClient → Type 0
  InTime now time c =
      ((now + 2 ^ 64 - c.livecount) % 2 ^ 64 ≤ 20000) × All (λ e. MayStay time e.1) c.devlist

  is_over-MayStay : (time : Text) (d : DeviceNode) → is_over seconds time d ≡ false → MayStay time d
  unfolding is_over
  is_over-MayStay time d over = elim (Bool-cases (is_empty d.s0)) [
    | inl none0 ↦ inr (inr (inl none0))
    | inr some0 ↦
        let first = check_internal_iff seconds time d.s0 d.e0 some0 in
        elim (Bool-cases (is_empty d.s1)) [
          | inl none1 ↦ grind arith
          | inr some1 ↦ let second = check_internal_iff seconds time d.s1 d.e1 some1 in grind arith
        ]
  ]

  devlist-MayStay :
      (time : Text) (devs : Map Text DeviceNode)
      → All (λ e. is_over seconds time e.1 ≡ false) devs
      → All (λ e. MayStay time e.1) devs
  devlist-MayStay time [] all = tt
  devlist-MayStay time ((k, d) ∷ devs) (one, all) =
      (is_over-MayStay time d one, devlist-MayStay time devs all)

  is_over_online :
      (time : Text) (d : DeviceNode) → is_over seconds time (record d { state = 1 }) ≡ false
  unfolding is_over
  is_over_online time d = refl

  stop_over-InTime :
      (time : Text) (devs : Map Text DeviceNode)
      → All (λ e. is_over seconds time e.1 ≡ false) (stop_over seconds time devs).0
  unfolding stop_over
  stop_over-InTime time [] = tt
  stop_over-InTime time ((k, d) ∷ devs) = elim (Bool-cases (is_over seconds time d)) [
    | inl e ↦ rw (e, stop_over) (is_over_online time d, stop_over-InTime time devs)
    | inr e ↦ rw (e, stop_over) (e, stop_over-InTime time devs)
  ]

  check_state-InTime :
      (net : Bool) (now : ℕ) (time : Text) (c : CmsClient) {r : Checked}
      → check_state seconds net now time c ≡ ok r
      → r.stays ≡ true
      → InTime now time r.client
  unfolding check_state is_silent
  check_state-InTime net now time c e s =
      let stays = devlist-MayStay time _ (stop_over-InTime time c.devlist) in grind arith

  refresh_clients-InTime :
      (net : ℕ → Bool) (now : ℕ) (time : Text) (cs : List CmsClient)
      {r : List CmsClient × List ℕ × List (ℕ × Frame)}
      → refresh_clients seconds net now time cs ≡ ok r
      → All (InTime now time) r.0
  unfolding refresh_clients
  refresh_clients-InTime net now time [] e = ground arith
  refresh_clients-InTime net now time (c ∷ cs) e =
      grind
        (arith, check_state-InTime (net c.fd) now time c, refresh_clients-InTime net now time cs)

  -- After the look at the start of a turn, every client that is left was heard of at most 20000
  -- milliseconds ago, by the 64-bit word of the clock, and every camera that plays and has a first section,
  -- not being one for all day, has the time of day within its first section or within a second one.
  pub refresh-InTime :
      (net : ℕ → Bool) (now : ℕ) (time : Text) (srv : TcpServer) {srv' : TcpServer}
      → refresh seconds net now time srv ≡ ok srv'
      → All (InTime now time) srv'.clients
  unfolding refresh
  refresh-InTime net now time srv e = grind (arith, refresh_clients-InTime net now time srv.clients)
