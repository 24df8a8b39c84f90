-- ===== src/Docs.antt =====
-- apps/react/src/pages/Docs: the table of contents beside the text, and what it shows.
pub mod Sidebar
mod Tests
use any_gateway.Base.{
  Bool, true, false, not, Option, none, some, List, [], ◌∷◌, ◌++◌, any, if◌then◌else◌,
}
use any_gateway.Base.Text.{Text, lit, is_empty, text_eq}
use any_gateway.Base.Dict.{Dict, get, put}

mutual
  -- `Section`; missing children are none
  pub data Section : Type 0 where
    section : (id label : Text) → Sections → Section

  pub data Sections : Type 0 where
    nil : Sections
    cons : Section → Sections → Sections

abbrev leaf : Text → Text → Section
leaf id label = section id label nil

-- `sections`
abbrev pub sections : Sections
sections = cons (leaf (lit "overview") (lit "概览")) (
    cons
      (section (lit "quickstart") (lit "快速开始") (
        cons (leaf (lit "auth") (lit "认证方式")) (
          cons (leaf (lit "chat-completions") (lit "Chat Completions")) (
            cons (leaf (lit "anthropic-messages") (lit "Anthropic Messages"))
              (cons (leaf (lit "models") (lit "模型列表")) nil)))))
      (cons (leaf (lit "claude-code") (lit "Claude Code 安装")) (
        cons (leaf (lit "codex") (lit "CodeX 安装")) (
          cons (leaf (lit "gemini-cli") (lit "Gemini CLI 安装")) (
            cons (leaf (lit "apikey") (lit "API Key 管理")) (
              cons (leaf (lit "billing") (lit "计费与用量"))
                (cons (leaf (lit "rate-limit") (lit "速率限制")) nil)))))))

abbrev pub id_of : Section → Text
id_of (section id label cs) = id

-- `flatSections`
unfoldable pub flat_sections : Sections → List Section
flat_sections nil = []
flat_sections (cons (section id label cs) rest) =
    section id label cs ∷ flat_sections cs ++ flat_sections rest

abbrev pub ids : Sections → List Text
ids nil = []
ids (cons (section id label cs) rest) = id ∷ ids rest

-- `children?.some(c => c.id === childId)`
abbrev pub has_child : Sections → Text → Bool
has_child nil k = false
has_child (cons (section id label cs) rest) k =
    let more = has_child rest k in if text_eq id k then true else more

-- `findParentId`
unfoldable pub find_parent_id : Sections → Text → Option Text
find_parent_id nil k = none
find_parent_id (cons (section id label cs) rest) k =
    let more = find_parent_id rest k in if has_child cs k then some id else more

-- The state hooks.
pub record Page : Type 0 where
  pub active_id : Text
  pub expanded : Dict Bool

abbrev pub initial : Page
initial = record { active_id = lit "overview"; expanded = (lit "quickstart", true) ∷ [] }

abbrev is_true : Option Bool → Bool
is_true none = false
is_true (some b) = b

-- `expanded[id]`
abbrev pub is_expanded : Text → Dict Bool → Bool
is_expanded id d = is_true (get id d)

-- `toggleExpand`
unfoldable pub toggle_expand : Text → Page → Page
toggle_expand id s = record s { expanded = put id (not (is_expanded id s.expanded)) s.expanded }

abbrev pub expand : Option Text → Page → Page
expand none s = s
expand (some parent) s =
    if is_empty parent
    then s
    else if is_expanded parent s.expanded
    then s
    else record s { expanded = put parent true s.expanded }

-- The effect that follows a change of the active section.
unfoldable pub expand_parent : Sections → Page → Page
expand_parent items s = expand (find_parent_id items s.active_id) s

-- `setActiveId`: the effect runs where the section is another one than before.
unfoldable pub set_active : Sections → Text → Page → Page
set_active items id s =
    if text_eq id s.active_id then s else expand_parent items (record s { active_id = id })

-- `scrollTo`; `exists` says whether the document has the element.
unfoldable pub scroll_to : Sections → Bool → Text → Page → Page
scroll_to items exists id s = if exists then set_active items id s else s

-- An entry that the observer reports: the element and whether it is in sight.
pub record Entry : Type 0 where
  pub target : Text
  pub intersecting : Bool

-- The observer's callback: the first entry in sight.
unfoldable pub on_entries : Sections → List Entry → Page → Page
on_entries items [] s = s
on_entries items (e ∷ es) s =
    let more = on_entries items es s in if e.intersecting then set_active items e.target s else more

-- The elements that the observer watches: those of the flat list that the document has.
unfoldable pub observed : (Text → Bool) → List Section → List Text
observed exists [] = []
observed exists (s ∷ ss) =
    let more = observed exists ss in if exists (id_of s) then id_of s ∷ more else more

-- The entries that the sidebar shows: a group's children only where it is expanded.
unfoldable pub displayed : Sections → Dict Bool → List Text
displayed nil d = []
displayed (cons (section id label cs) rest) d =
    id ∷ (if is_expanded id d then ids cs else []) ++ displayed rest d
