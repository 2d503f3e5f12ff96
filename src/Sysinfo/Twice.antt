-- ===== src/Sysinfo/Twice.antt =====
-- Two calls one after the other (src/sysinfo.c, `get_system_info`).
use hifetch.Common.{
  Real, ◌≡◌, refl, subst⁻¹, inl, inr, Bool, true, some, if◌then◌else◌, Bool-cases, Leaves,
}
use hifetch.Sysinfo.Gather.{
  mapped, CacheState, zeroed, init_fast_cache, gather, fetch, store, answer, get_system_info,
}
use hifetch.Sysinfo.State.{SystemInfo, Sources, Formats}

module _ {D : Type 0} (k : Real D) (f : Formats D) where
  abbrev within_second : D → D → Bool
  within_second now last = k.less (k.sub now last) (f.of_ℕ 1000000)

  pub mapped-answers :
      (now last : D) (s : Sources) (old : SystemInfo D)
      → get_system_info k f now s (record { cached_info = mapped old; last_update = last }) ≡ (
          let fresh = within_second now last in
          let info = if fresh then old else gather k f s in
          some
            (info, record { cached_info = mapped info; last_update = if fresh then last else now }))
  unfolding get_system_info fetch answer store
  mapped-answers now last s old = elim (Bool-cases (within_second now last)) [
    | inl fresh ↦ rw fresh refl
    | inr stale ↦ rw stale refl
  ]

  -- Once the cache is mapped, the first call gathers the facts, but within the first second of the
  -- clock it answers the empty record. The second call answers what the first one did if that is less
  -- than a second old, counted from the zero of the clock if the first call gathered nothing, and
  -- gathers the facts otherwise.
  pub get_system_info-get_system_info :
      (now now' : D) (s s' : Sources) (c : CacheState D)
      → c.last_update ≡ k.zero
      → Leaves (get_system_info k f now s (init_fast_cache k f true c)) (λ r.
        let early = within_second now k.zero in
        let known = if early then k.zero else now in
        (r.0 ≡ (if early then zeroed k f else gather k f s))
        × Leaves
            (get_system_info k f now' s' r.1)
            (λ r'. r'.0 ≡ (if within_second now' known then r.0 else gather k f s')))
  unfolding init_fast_cache Leaves
  get_system_info-get_system_info now now' s s' c h =
      let early = within_second now k.zero in
      let first = if early then zeroed k f else gather k f s in
      let known = if early then k.zero else now in
      let P : SystemInfo D × CacheState D → Type 0 = λ r.
        (r.0 ≡ first)
        × Leaves (get_system_info k f now' s' r.1)
            (λ r'. r'.0 ≡ (if within_second now' known then r.0 else gather k f s')) in
      let second = mapped-answers now' known s' first in
      subst⁻¹
        (λ last.
          Leaves
            (get_system_info k f now s
              (record { cached_info = mapped (zeroed k f); last_update = last }))
            P)
        h
        (subst⁻¹ (λ o. Leaves o P) (mapped-answers now k.zero s (zeroed k f))
          (
            refl,
            subst⁻¹
                (λ o. Leaves o (λ (r' : SystemInfo D × CacheState D).
                  r'.0 ≡ (if within_second now' known then first else gather k f s')))
                second refl,
          ))
