-- ===== src/Picker/Changes.antt =====
-- update.go: which dependencies an install changes (`depScopeAction`, `depCountsAsChange`).
use ludus.Prelude.{◌≡◌, refl, ◌∙◌, Bool, true, false, not, ◌&&◌, ◌||◌, List, [], ◌∷◌, if◌then◌else◌}
use ludus.Picker.Catalog.{
  global, user, InstallState, not_installed, installed, upgrade_available, Scope, ScopeInstall,
}
use ludus.Picker.Model.{Row, Model}
use ludus.Picker.Moves.{is_nil}
use ludus.Picker.Deps.{
  DepAction, install, reinstall, upgrade, upgrade_offered, no_action, scope_eq, copy_action,
  unscoped_action, scopes_action, target_scope, dep_scope_action, dep_counts_as_change,
}

-- Is there a copy in this scope?
abbrev pub copy_in : Scope → List ScopeInstall → Bool
copy_in target [] = false
copy_in target (s ∷ scopes) = scope_eq s.scope target || copy_in target scopes

abbrev is_absent : InstallState → Bool
is_absent not_installed = true
is_absent _ = false

-- Would the dependency be new to the scope that the install writes to?
abbrev pub absent_in : Scope → Row → Bool
absent_in target r = if is_nil r.scopes then is_absent r.state else not (copy_in target r.scopes)

abbrev changes : DepAction → Bool
changes install = true
changes reinstall = true
changes upgrade = true
changes upgrade_offered = false
changes no_action = false

copy_action-changes : (force : Bool) (s : InstallState) → changes (copy_action force s) ≡ force
unfolding copy_action
copy_action-changes true not_installed = refl
copy_action-changes true installed = refl
copy_action-changes true upgrade_available = refl
copy_action-changes false not_installed = refl
copy_action-changes false installed = refl
copy_action-changes false upgrade_available = refl

unscoped_action-changes :
    (force : Bool) (s : InstallState) → changes (unscoped_action force s) ≡ force || is_absent s
unfolding unscoped_action
unscoped_action-changes true not_installed = refl
unscoped_action-changes true installed = refl
unscoped_action-changes true upgrade_available = refl
unscoped_action-changes false not_installed = refl
unscoped_action-changes false installed = refl
unscoped_action-changes false upgrade_available = refl

scopes_action-changes :
    (target : Scope) (force : Bool) (scopes : List ScopeInstall)
    → changes (scopes_action target force install scopes) ≡ force || not (copy_in target scopes)
unfolding scopes_action
scopes_action-changes target true [] = refl
scopes_action-changes target false [] = refl
scopes_action-changes target force (s ∷ scopes) =
    let ih = scopes_action-changes target force scopes in
    let copy = copy_action-changes force s.state in by_scope (scope_eq s.scope target) copy ih
  where
    by_scope :
        (b : Bool)
        → changes (copy_action force s.state) ≡ force
        → changes (scopes_action target force install scopes) ≡ force || not (copy_in target scopes)
        → changes
            (if b then copy_action force s.state else scopes_action target force install scopes)
          ≡ force || not (b || copy_in target scopes)
    by_scope true c ih = c ∙ or_false force
      where
        or_false : (f : Bool) → f ≡ f || false
        or_false true = refl
        or_false false = refl
    by_scope false c ih = ih

dep_counts-changes :
    {I : Type 0} (m : Model I) (r : Row) → dep_counts_as_change m r ≡ changes (dep_scope_action m r)
unfolding dep_counts_as_change
dep_counts-changes m r = of_action (dep_scope_action m r)
  where
    of_action :
        (a : DepAction)
        → elim a [
          | install ↦ true
          | reinstall ↦ true
          | upgrade ↦ true
          | upgrade_offered ↦ false
          | no_action ↦ false
        ]
          ≡ changes a
    of_action install = refl
    of_action reinstall = refl
    of_action upgrade = refl
    of_action upgrade_offered = refl
    of_action no_action = refl

-- With the scope that the code takes.
dep_counts_as_change-target :
    {I : Type 0} (m : Model I) (r : Row)
    → dep_counts_as_change m r
      ≡ not m.adv.no_deps && (r.selected_by && (m.adv.force || absent_in (target_scope m) r))
unfolding dep_scope_action scopes_action
dep_counts_as_change-target m r = dep_counts-changes m r ∙ gated m.adv.no_deps r.selected_by
  where
    scoped :
        (scopes : List ScopeInstall)
        → changes (
            scopes_action
              (target_scope m)
              m.adv.force
              (if is_nil scopes then unscoped_action m.adv.force r.state else install)
              scopes)
          ≡ m.adv.force
            || (if is_nil scopes then is_absent r.state else not (copy_in (target_scope m) scopes))
    scoped [] = unscoped_action-changes m.adv.force r.state
    scoped (s ∷ scopes) = scopes_action-changes (target_scope m) m.adv.force (s ∷ scopes)

    gated :
        (no_deps selected : Bool)
        → changes (
            if no_deps || not selected
            then no_action
            else scopes_action
                (target_scope m)
                m.adv.force
                (if is_nil r.scopes then unscoped_action m.adv.force r.state else install)
                r.scopes)
          ≡ not no_deps && (selected && (m.adv.force || absent_in (target_scope m) r))
    gated true selected = refl
    gated false true = scoped r.scopes
    gated false false = refl

-- An install counts a dependency as a change exactly if dependencies are not suppressed, a selected
-- blueprint needs it, and the install is forced or the dependency is absent from the scope that the
-- install writes to, which is the global one if that is chosen and the user's if not (for a row
-- without scopes: is not installed).
pub dep_counts_as_change-iff_written :
    {I : Type 0} (m : Model I) (r : Row)
    → dep_counts_as_change m r
      ≡ not m.adv.no_deps
        && (r.selected_by
            && (m.adv.force || absent_in (if m.adv.global_scope then global else user) r))
unfolding target_scope
dep_counts_as_change-iff_written m r = dep_counts_as_change-target m r
