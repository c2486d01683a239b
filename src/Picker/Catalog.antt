-- ===== src/Picker/Catalog.antt =====
-- The catalog of a source (ludus-api/dto), and model.go's sections and tabs.
use ludus.Prelude.{String, Bool, List, [], ◌∷◌}

-- "not_installed", "installed" and "upgrade_available".
pub data InstallState : Type 0 where
  not_installed installed upgrade_available : InstallState

-- "global" and "user".
pub data Scope : Type 0 where
  global user : Scope

pub record ScopeInstall : Type 0 where
  pub scope : Scope
  pub version : String
  pub state : InstallState

pub record CatalogBlueprint : Type 0 where
  pub id : String
  pub name : String
  pub description : String
  pub version : String
  pub state : InstallState
  pub installed_version : String
  pub required_templates : List String
  pub required_local_roles : List String
  pub required_collections : List String

pub record CatalogItem : Type 0 where
  pub name : String
  pub description : String
  pub version : String
  pub state : InstallState
  pub installed_version : String
  pub scopes : List ScopeInstall
  pub fqcn : String
  pub required_by : List String
  pub version_by_blueprint : List (String × String)

-- The dependencies that the blueprints pull in stand beside the blueprints.
pub record SourceCatalog : Type 0 where
  pub blueprints : List CatalogBlueprint
  pub required_roles : List CatalogItem
  pub required_collections : List CatalogItem
  pub subscription_roles : List CatalogItem
  pub templates : List CatalogItem
  pub local_roles : List CatalogItem
  pub local_collections : List CatalogItem

pub record InstallSelection : Type 0 where
  pub blueprints : List String
  pub templates : List String
  pub local_roles : List String
  pub local_collections : List String

pub data Section : Type 0 where
  blueprints templates local_roles local_collections : Section

pub data Tab : Type 0 where
  blueprint_tab template_tab ansible_tab : Tab

abbrev pub all_sections : List Section
all_sections = blueprints ∷ templates ∷ local_roles ∷ local_collections ∷ []

abbrev pub all_tabs : List Tab
all_tabs = blueprint_tab ∷ template_tab ∷ ansible_tab ∷ []

unfoldable pub section_title : Section → String
section_title blueprints = "Blueprints"
section_title templates = "Templates"
section_title local_roles = "Roles"
section_title local_collections = "Collections"

unfoldable pub tab_title : Tab → String
tab_title blueprint_tab = "Blueprints"
tab_title template_tab = "Templates"
tab_title ansible_tab = "Ansible"

-- The sections of a tab: the first one, and the others.
unfoldable pub first_section : Tab → Section
first_section blueprint_tab = blueprints
first_section template_tab = templates
first_section ansible_tab = local_roles

unfoldable pub sections : Tab → List Section
sections blueprint_tab = blueprints ∷ []
sections template_tab = templates ∷ []
sections ansible_tab = local_roles ∷ local_collections ∷ []

abbrev pub section_eq : Section → Section → Bool
section_eq blueprints blueprints = Bool.true
section_eq templates templates = Bool.true
section_eq local_roles local_roles = Bool.true
section_eq local_collections local_collections = Bool.true
section_eq _ _ = Bool.false

abbrev pub tab_eq : Tab → Tab → Bool
tab_eq blueprint_tab blueprint_tab = Bool.true
tab_eq template_tab template_tab = Bool.true
tab_eq ansible_tab ansible_tab = Bool.true
tab_eq _ _ = Bool.false

-- A Go map whose keys are the sections (or their `key()`), with an entry for each.
pub record PerSection (A : Type 0) : Type 0 where
  pub at_blueprints : A
  pub at_templates : A
  pub at_local_roles : A
  pub at_local_collections : A

abbrev pub get : {A : Type 0} → PerSection A → Section → A
get p blueprints = p.at_blueprints
get p templates = p.at_templates
get p local_roles = p.at_local_roles
get p local_collections = p.at_local_collections

abbrev pub put : {A : Type 0} → PerSection A → Section → A → PerSection A
put p blueprints a = record p { at_blueprints = a }
put p templates a = record p { at_templates = a }
put p local_roles a = record p { at_local_roles = a }
put p local_collections a = record p { at_local_collections = a }

abbrev pub everywhere : {A : Type 0} → A → PerSection A
everywhere a = record {
  at_blueprints = a;
  at_templates = a;
  at_local_roles = a;
  at_local_collections = a;
}
