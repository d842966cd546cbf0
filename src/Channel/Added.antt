-- ===== src/Channel/Added.antt =====
-- The first `enablereading` of a new channel, among the channels that its epoll watches already.
use reactor_server.Base.{
  ℕ, ◌≡◌, ◌≢◌, refl, ap, ◌∙◌, Bool, true, false, ◌==◌, ◌⊎◌, inl, inr, ok, fault, exits, arith,
  Bool-cases, ℕ_discrete,
}
use reactor_server.Channel.State.{Channel, create}
use reactor_server.Channel.Sync.{IsWatched}
use reactor_server.Channel.Watch.{enablereading}
use reactor_server.Epoll.Defs.{updatechannel}
use reactor_server.Epoll.Kernel.{Kernel, Laws, add}

-- A channel that is watched for input only, as `enablereading` leaves a new one.
abbrev pub reading : ℕ → Channel
reading fd = record { fd = fd; inepoll = true; events = 1; revents = 0 }

different : (a b : ℕ) → a ≢ b → (a == b) ≡ false
different a b ne = ground arith

module _ (k : Kernel) (laws : Laws k) where
  open laws use {watched, armed, changes, add_present}

  added-elsewhere :
      (fd events : ℕ) (c : Channel) (s : k.State)
      → (k.ctl add fd events s).1 ≡ true
      → IsWatched k laws c s
      → IsWatched k laws c (k.ctl add fd events s).0
  added-elsewhere fd events c s added w = record {
    flagged = w.flagged;
    listed = elim (ℕ_discrete fd c.fd) [
      | yes e ↦
          absurd (both _ added (add_present fd events c.events s (ap (watched s) e ∙ w.listed)))
      | no ne ↦ changes add fd events c.fd s added ∙ rw (different fd c.fd ne) w.listed
    ];
  }
    where
      both : (b : Bool) → b ≡ true → b ≡ false → ⊥
      both b h h' = ground (arith, h, h')

  -- It is added, and whatever was watched stays so, or the process ends.
  pub enablereading-added :
      (fd : ℕ) (s : k.State)
      → (enablereading k (create fd) s ≡ fault exits)
        ⊎ ((s' : k.State) × (enablereading k (create fd) s ≡ ok (reading fd, s'))
            × IsWatched k laws (reading fd) s'
            × ((c : Channel) → IsWatched k laws c s → IsWatched k laws c s')
            × (armed s' ≡ armed s))
  unfolding enablereading updatechannel create
  enablereading-added fd s = elim (Bool-cases (k.ctl add fd 1 s).1) [
    | inr no_room ↦ inl (ground arith)
    | inl added ↦ inr (
      (k.ctl add fd 1 s).0,
      ground arith,
      record { flagged = refl; listed = ground (arith, changes add fd 1 fd s added) },
      λ c w. added-elsewhere fd 1 c s added w,
      laws.ctl_armed add fd 1 s,
    )
  ]
