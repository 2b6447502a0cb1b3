-- ===== src/Reloader/Snapshots.antt =====
-- What the live snapshot is, at each moment and after each tick.
use codereviewer.Prelude.{
  ◌≡◌, refl, sym, ap, subst, ◌∙◌, Bool, true, false, List, [], ◌∷◌, ◌++◌, All, arith, Text,
  Bool-cases, inl, inr,
}
use codereviewer.Prelude.Int.{ℤ}
use codereviewer.Ports.{Result, ok, err, Result-cases}
use codereviewer.Schemas.Config.{Config}
use codereviewer.Overlay.{Setting, Surroundings, apply_overlay}
use codereviewer.Overlay.Untouched.{apply_overlay-base}
use codereviewer.Reloader.{
  config_equal, Reloader, seen, start_with, new_reloader, use_reloaded, poll,
}
use codereviewer.Reloader.Equality.{config_equal-eq}

-- a tick's effect, by what the overlay gives
abbrev pub Follows : Reloader → Result Config → Reloader → Type 0
Follows r (ok cfg) next = next ≡ record r { current = cfg }
Follows r (err e) next = next ≡ r

module _ (around : Surroundings) where
  -- two overlays of the same configuration that agree on the compared fields are the same
  overlays_agree :
      (boot c d : Config) (has_store : Bool) (s t : Result (List Setting))
      → apply_overlay around boot (seen has_store s) ≡ ok c
      → apply_overlay around boot (seen has_store t) ≡ ok d
      → config_equal c d ≡ true
      → c ≡ d
  overlays_agree boot c d true s t p q h =
      config_equal-eq c d h
        (apply_overlay-base around boot c s p ∙ sym (apply_overlay-base around boot d t q))
  overlays_agree boot c d false s t p q h = unfold apply_overlay in cc

  -- what the overlay makes of the reloader's bootstrap configuration
  abbrev pub overlay_of : Reloader → Result (List Setting) → Result Config
  overlay_of r settings = apply_overlay around r.bootstrap (seen r.has_store settings)

  -- The snapshot is the overlay of the bootstrap configuration with settings once given.
  abbrev pub IsSnapshot : Reloader → Type 0
  IsSnapshot r = (settings : Result (List Setting)) × (overlay_of r settings ≡ ok r.current)

  use_reloaded_lem :
      (r : Reloader) (cfg : Config)
      → (config_equal r.current cfg ≡ true → r.current ≡ cfg)
      → use_reloaded around r (ok cfg) ≡ record r { current = cfg }
  unfolding use_reloaded
  use_reloaded_lem r cfg agree = elim (Bool-cases (config_equal r.current cfg)) [
    | inl e ↦ rw e (ap (λ c. record r { current = c }) (agree e))
    | inr e ↦ rw e refl
  ]

  poll_works :
      (r : Reloader) (s : Result (List Setting)) (cfg : Config)
      → IsSnapshot r
      → overlay_of r s ≡ ok cfg
      → poll around r s ≡ record r { current = cfg }
  unfolding poll
  poll_works r s cfg (old, taken) h =
      ap (use_reloaded around r) h
      ∙ use_reloaded_lem r cfg (overlays_agree r.bootstrap r.current cfg r.has_store old s taken h)

  poll_fails :
      (r : Reloader) (s : Result (List Setting)) (e : Text)
      → overlay_of r s ≡ err e
      → poll around r s ≡ r
  unfolding poll
  poll_fails r s e h = ap (use_reloaded around r) h ∙ (unfold use_reloaded in refl)

  poll-IsSnapshot :
      (r : Reloader) (s : Result (List Setting))
      → IsSnapshot r
      → IsSnapshot (poll around r s)
        × ((poll around r s).bootstrap ≡ r.bootstrap)
        × ((poll around r s).has_store ≡ r.has_store)
  poll-IsSnapshot r s v = elim (Result-cases (overlay_of r s)) [
    | inl (cfg, h) ↦ rw (poll_works r s cfg v h) ((s, h), refl, refl)
    | inr (e, h) ↦ rw (poll_fails r s e h) (v, refl, refl)
  ]

  start-current :
      (boot : Config) (has_store : Bool) (interval : ℤ) (r : Reloader) (made : Result Config)
      → start_with around boot has_store interval made ≡ ok r
      → made ≡ ok r.current
  start-current boot has_store interval r (err e) k = absurd (ground arith)
  start-current boot has_store interval r (ok cfg) k = ap ok (ground (arith, k))

  start-IsSnapshot :
      (boot : Config) (has_store : Bool) (interval : ℤ) (s : Result (List Setting)) (r : Reloader)
      (made : Result Config)
      → apply_overlay around boot (seen has_store s) ≡ made
      → start_with around boot has_store interval made ≡ ok r
      → IsSnapshot r × (r.bootstrap ≡ boot) × (r.has_store ≡ has_store)
  start-IsSnapshot boot has_store interval s r (err e) h k = absurd (ground arith)
  start-IsSnapshot boot has_store interval s r (ok cfg) h k =
      subst (λ x. started r x) k ((s, h), refl, refl)
    where
      started : Reloader → Result Reloader → Type 0
      started old (err e) = ⊥
      started old (ok new) = IsSnapshot new × (new.bootstrap ≡ boot) × (new.has_store ≡ has_store)

  -- the reloader after ticks at which the store said `reads`, the latest first
  pub data Reach (start : Reloader) : List (Result (List Setting)) → Reloader → Type 0 where
    here : Reach start [] start
    tick :
        {reads : List (Result (List Setting))} {r : Reloader}
        → Reach start reads r
        → (s : Result (List Setting)) → Reach start (s ∷ reads) (poll around r s)

  -- Of the settings read so far, the latest first, `cfg` is the overlay of one; all later ones were
  -- refused.
  abbrev pub IsLatest : Config → Bool → List (Result (List Setting)) → Config → Type 0
  IsLatest boot has_store reads cfg =
      (s : Result (List Setting)) × (newer : List (Result (List Setting))) × (older : List
        (Result (List Setting)))
      × (reads ≡ newer ++ s ∷ older)
      × All (λ t. (e : Text) × (apply_overlay around boot (seen has_store t) ≡ err e)) newer
      × (apply_overlay around boot (seen has_store s) ≡ ok cfg)

  module _ (boot : Config) (has_store : Bool) (interval : ℤ) (s0 : Result (List Setting))
      {start : Reloader} (made : new_reloader around boot has_store interval s0 ≡ ok start) where
    Reach-kept :
        {reads : List (Result (List Setting))} {r : Reloader}
        → Reach start reads r
        → IsSnapshot r × (r.bootstrap ≡ boot) × (r.has_store ≡ has_store)
    Reach-kept here =
        start-IsSnapshot boot has_store interval s0 start _ refl (unfold new_reloader in made)
    Reach-kept (tick {r = r} seen s) =
        let (v, b, k) = Reach-kept seen in
        let (w, c, l) = poll-IsSnapshot r s v in (w, c ∙ b, l ∙ k)

    overlay_same :
        (r : Reloader)
        → r.bootstrap ≡ boot
        → r.has_store ≡ has_store
        → (s : Result (List Setting))
        → overlay_of r s ≡ apply_overlay around boot (seen has_store s)
    overlay_same r b k s = λ i. apply_overlay around (b i) (seen (k i) s)

    -- After a tick at which the settings can be laid over the bootstrap configuration, the snapshot
    -- is exactly that overlay, though only some fields decide whether it is replaced; a tick at
    -- which they cannot changes nothing. So after any earlier ticks.
    pub poll-Follows :
        {reads : List (Result (List Setting))} {r : Reloader}
        → Reach start reads r
        → (s : Result (List Setting))
        → Follows r (apply_overlay around boot (seen has_store s)) (poll around r s)
    poll-Follows {r} reached s =
        let (v, b, k) = Reach-kept reached in
        elim (Result-cases (overlay_of r s)) [
          | inl (cfg, h) ↦
              subst (λ x. Follows r x (poll around r s)) (sym h ∙ overlay_same r b k s)
                (poll_works r s cfg v h)
          | inr (e, h) ↦
              subst (λ x. Follows r x (poll around r s)) (sym h ∙ overlay_same r b k s)
                (poll_fails r s e h)
        ]

    Follows-IsLatest :
        (reads : List (Result (List Setting))) (r : Reloader) (s : Result (List Setting))
        (next : Reloader)
        → IsLatest boot has_store (reads ++ s0 ∷ []) r.current
        → Follows r (apply_overlay around boot (seen has_store s)) next
        → IsLatest boot has_store (s ∷ reads ++ s0 ∷ []) next.current
    Follows-IsLatest reads r s next (t, newer, older, split, refused, taken) f =
        elim (Result-cases (apply_overlay around boot (seen has_store s))) [
          | inl (cfg, h) ↦
              let now : next.current ≡ cfg =
                ap (λ x. x.current) (subst (λ x. Follows r x next) h f) in
              (s, [], reads ++ s0 ∷ [], refl, tt, h ∙ ap ok (sym now))
          | inr (e, h) ↦
              let same : r.current ≡ next.current =
                sym (ap (λ x. x.current) (subst (λ x. Follows r x next) h f)) in
              (t, s ∷ newer, older, ap (λ x. s ∷ x) split, ((e, h), refused), taken ∙ ap ok same)
        ]

    -- After any ticks, with any settings and failures of the store, the snapshot of a reloader that
    -- was made is the overlay over its bootstrap configuration of the settings that the store gave
    -- at one moment, at a tick or when the reloader was made: the latest at which they could be
    -- read and laid over it. So it is never a mixture of two reads, and a read that is refused
    -- leaves it alone.
    pub Reach-IsSnapshot :
        {reads : List (Result (List Setting))} {r : Reloader}
        → Reach start reads r
        → IsLatest boot has_store (reads ++ s0 ∷ []) r.current
    Reach-IsSnapshot here = (
      s0,
      [],
      [],
      refl,
      tt,
      start-current boot has_store interval start _ (unfold new_reloader in made),
    )
    Reach-IsSnapshot (tick seen s) =
        Follows-IsLatest _ _ s _ (Reach-IsSnapshot seen) (poll-Follows seen s)
