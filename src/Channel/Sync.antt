-- ===== src/Channel/Sync.antt =====
-- A channel and the kernel's interest list: in step until `remove`, out of step ever after.
use reactor_server.Base.{
  ℕ, ◌≡◌, ◌≢◌, refl, true, false, none, some, Outcome, ok, fault, exits, ◌>>=◌, arith, Bool-cases,
  inl, inr, ◌⊎◌, ◌∙◌,
}
use reactor_server.Channel.State.{Channel, with_bit, without_bit, epollin, epollout}
use reactor_server.Epoll.Kernel.{Kernel, Laws, add, mod_, del}
use reactor_server.Epoll.Defs.{updatechannel, removechannel, ctl_or_exit}
use reactor_server.Channel.Watch.{
  enablereading, disablereading, enablewriting, disablewriting, disableall, remove,
}

-- The five methods that change a channel's events.
pub data Change : Type 0 where
  read_on read_off write_on write_off all_off : Change

module _ (k : Kernel) where
  unfoldable pub change : Change → Channel → k.State → Outcome (Channel × k.State)
  unfolding enablereading disablereading enablewriting disablewriting disableall
  change read_on = enablereading k
  change read_off = disablereading k
  change write_on = enablewriting k
  change write_off = disablewriting k
  change all_off = disableall k

-- The channel with the events that the method is to leave.
abbrev pub wanted : Change → Channel → Channel
wanted read_on ch = record ch { events = with_bit ch.events epollin }
wanted read_off ch = record ch { events = without_bit ch.events epollin }
wanted write_on ch = record ch { events = with_bit ch.events epollout }
wanted write_off ch = record ch { events = without_bit ch.events epollout }
wanted all_off ch = record ch { events = 0 }

module _ (k : Kernel) (laws : Laws k) where
  open laws use {watched, changes, mod_missing, del_missing, mod_present, del_present}

  -- The kernel watches the channel's descriptor, for the channel's events.
  pub record IsWatched (ch : Channel) (s : k.State) : Type 0 where
    pub flagged : ch.inepoll ≡ true
    pub listed : watched s ch.fd ≡ some ch.events

  -- The channel believes itself watched, and is not.
  pub record IsStale (ch : Channel) (s : k.State) : Type 0 where
    pub flagged : ch.inepoll ≡ true
    pub unlisted : watched s ch.fd ≡ none

  pub ctl_or_exit-mod :
      (fd events e : ℕ) (s : k.State)
      → watched s fd ≡ some e
      → ctl_or_exit k mod_ fd events s ≡ ok (k.ctl mod_ fd events s).0
  unfolding ctl_or_exit
  ctl_or_exit-mod fd events e s h = ground (arith, mod_present fd events e s h)

  pub updatechannel-IsWatched :
      (ch : Channel) (s : k.State) (e : ℕ)
      → ch.inepoll ≡ true
      → watched s ch.fd ≡ some e
      → (s' : k.State) × (updatechannel k ch s ≡ ok (ch, s'))
        × IsWatched ch s'
        × ((j : ℕ) → j ≢ ch.fd → watched s' j ≡ watched s j)
  unfolding updatechannel
  updatechannel-IsWatched ch s e f h = (
    (k.ctl mod_ ch.fd ch.events s).0,
    ground (arith, mod_present ch.fd ch.events e s h),
    record {
      flagged = f;
      listed =
          ground (arith, changes mod_ ch.fd ch.events ch.fd s (mod_present ch.fd ch.events e s h));
    },
    λ j ne. ground (arith, changes mod_ ch.fd ch.events j s (mod_present ch.fd ch.events e s h)),
  )

  pub updatechannel-stale :
      (ch : Channel) (s : k.State) → IsStale ch s → updatechannel k ch s ≡ fault exits
  unfolding updatechannel
  updatechannel-stale ch s h = ground (arith, mod_missing ch.fd ch.events s h.unlisted)

  -- A change of the events of a channel that is watched succeeds, reaches the kernel, and leaves the
  -- other descriptors alone.
  pub change-IsWatched :
      (c : Change) (ch : Channel) (s : k.State)
      → IsWatched ch s
      → (s' : k.State) × (change k c ch s ≡ ok (wanted c ch, s'))
        × IsWatched (wanted c ch) s'
        × ((j : ℕ) → j ≢ ch.fd → watched s' j ≡ watched s j)
  unfolding change
  change-IsWatched read_on ch s w =
      updatechannel-IsWatched (wanted read_on ch) s ch.events w.flagged w.listed
  change-IsWatched read_off ch s w =
      updatechannel-IsWatched (wanted read_off ch) s ch.events w.flagged w.listed
  change-IsWatched write_on ch s w =
      updatechannel-IsWatched (wanted write_on ch) s ch.events w.flagged w.listed
  change-IsWatched write_off ch s w =
      updatechannel-IsWatched (wanted write_off ch) s ch.events w.flagged w.listed
  change-IsWatched all_off ch s w =
      updatechannel-IsWatched (wanted all_off ch) s ch.events w.flagged w.listed

  -- Any change of the events of a channel that has its flag set and is not in the interest list, as
  -- `remove` leaves it, ends the process.
  pub change-stale :
      (c : Change) (ch : Channel) (s : k.State) → IsStale ch s → change k c ch s ≡ fault exits
  unfolding change
  change-stale read_on ch s w =
      updatechannel-stale _ s (record { flagged = w.flagged; unlisted = w.unlisted })
  change-stale read_off ch s w =
      updatechannel-stale _ s (record { flagged = w.flagged; unlisted = w.unlisted })
  change-stale write_on ch s w =
      updatechannel-stale _ s (record { flagged = w.flagged; unlisted = w.unlisted })
  change-stale write_off ch s w =
      updatechannel-stale _ s (record { flagged = w.flagged; unlisted = w.unlisted })
  change-stale all_off ch s w =
      updatechannel-stale _ s (record { flagged = w.flagged; unlisted = w.unlisted })

  removechannel-IsStale :
      (ch : Channel) (s : k.State)
      → IsWatched ch s
      → (s' : k.State) × (removechannel k ch s ≡ ok (ch, s'))
        × IsStale ch s'
        × ((j : ℕ) → j ≢ ch.fd → watched s' j ≡ watched s j)
  unfolding removechannel
  removechannel-IsStale ch s w = (
    (k.ctl del ch.fd 0 s).0,
    ground (arith, del_present ch.fd 0 ch.events s w.listed),
    record {
      flagged = w.flagged;
      unlisted =
          ground (arith, changes del ch.fd 0 ch.fd s (del_present ch.fd 0 ch.events s w.listed));
    },
    λ j ne. ground (arith, changes del ch.fd 0 j s (del_present ch.fd 0 ch.events s w.listed)),
  )

  -- `remove` of a channel that is watched succeeds, takes it off the interest list, leaves its flag
  -- set, and leaves the other descriptors alone.
  pub remove-IsStale :
      (ch : Channel) (s : k.State)
      → IsWatched ch s
      → (s' : k.State) × (remove k ch s ≡ ok (wanted all_off ch, s'))
        × IsStale (wanted all_off ch) s'
        × ((j : ℕ) → j ≢ ch.fd → watched s' j ≡ watched s j)
  unfolding remove
  remove-IsStale ch s w =
      let (s₁, done, v, others) =
        updatechannel-IsWatched (wanted all_off ch) s ch.events w.flagged w.listed in
      let (s₂, done', stale, others') = removechannel-IsStale (wanted all_off ch) s₁ v in
      (s₂, rw (done, ◌>>=◌) done', stale, λ j ne. others' j ne ∙ others j ne)

  pub remove-stale : (ch : Channel) (s : k.State) → IsStale ch s → remove k ch s ≡ fault exits
  unfolding remove
  remove-stale ch s h = rw (
      updatechannel-stale (wanted all_off ch) s
        (record { flagged = h.flagged; unlisted = h.unlisted }))

  -- A channel that was never watched: the first `enablereading` adds it, or ends the process.
  pub enablereading-IsWatched :
      (ch : Channel) (s : k.State)
      → ch.inepoll ≡ false
      → let on = record (wanted read_on ch) { inepoll = true } in
        (enablereading k ch s ≡ fault exits)
        ⊎ ((s' : k.State) × (enablereading k ch s ≡ ok (on, s'))
            × IsWatched on s'
            × ((j : ℕ) → j ≢ ch.fd → watched s' j ≡ watched s j))
  unfolding enablereading updatechannel
  enablereading-IsWatched ch s f = elim (Bool-cases (k.ctl add ch.fd on.events s).1) [
    | inr no_room ↦ inl (ground arith)
    | inl added ↦ inr (
      (k.ctl add ch.fd on.events s).0,
      ground arith,
      record { flagged = refl; listed = ground (arith, changes add ch.fd on.events ch.fd s added) },
      λ j ne. ground (arith, changes add ch.fd on.events j s added),
    )
  ]
    where
      on : Channel
      on = wanted read_on ch
