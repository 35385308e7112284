-- ===== src/Server/Concurrent/Shared.antt =====
-- What a request finds out about the others: what the database accepted from it is accepted for all.
use learning_crossplane_e2e.Prelude.{
  ℕ, Bool, true, false, List, [], ◌∷◌, ◌++◌, ◌≡◌, refl, ap, sym, ◌∙◌, ◌==◌, if◌then◌else◌,
}
use learning_crossplane_e2e.Server.State.{Event, Video, DbOptions, Services}
use learning_crossplane_e2e.Server.Catalog.{Accepted, now, later}
use learning_crossplane_e2e.Server.Concurrent.{History, all, local, count, moment, view}
use learning_crossplane_e2e.Server.Concurrent.Moments.{moment-here, append_assoc}

module _ (svc : Services) (db : DbOptions) (v : Video) where
  -- An event of the request itself.
  own-Accepted :
      (seen : Services) (e : Event) (mine past : List Event)
      → seen.insert mine db v ≡ svc.insert past db v
      → (Accepted seen db v mine → Accepted svc db v past)
      → Accepted seen db v (e ∷ mine)
      → Accepted svc db v (e ∷ past)
  own-Accepted seen e mine past same rest (now a) = now (sym same ∙ a)
  own-Accepted seen e mine past same rest (later _ a) = later e (rest a)

  event-Accepted :
      (seen : Services) (own : Bool) (e : Event) (mine past : List Event)
      → (own ≡ true → seen.insert mine db v ≡ svc.insert past db v)
      → (Accepted seen db v mine → Accepted svc db v past)
      → Accepted seen db v (if own then e ∷ mine else mine)
      → Accepted svc db v (e ∷ past)
  event-Accepted seen true e mine past same rest a =
      own-Accepted seen e mine past (same refl) rest a
  event-Accepted seen false e mine past same rest a = later e (rest a)

  pub local-Accepted :
      (i : ℕ) (history newer older : History)
      → history ≡ newer ++ older
      → Accepted (view svc history i) db v (local i older)
      → Accepted svc db v (all older)
  local-Accepted i history newer [] split a = elim a [ ]
  local-Accepted i history newer ((k, e) ∷ past) split a =
      event-Accepted (view svc history i) (k == i) e (local i past) (all past)
        (λ own.
          ap (λ h. svc.insert (all h) db v)
            (ap (moment i (count (local i past))) split ∙ moment-here i k newer past e own))
        (local-Accepted i history (newer ++ (k, e) ∷ []) past
          (split ∙ append_assoc (k, e) newer past))
        a

  pub all-Accepted :
      (newer older : History)
      → Accepted svc db v (all older)
      → Accepted svc db v (all (newer ++ older))
  all-Accepted [] older a = a
  all-Accepted (p ∷ newer) older a = later p.1 (all-Accepted newer older a)
