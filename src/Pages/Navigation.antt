-- ===== src/Pages/Navigation.antt =====
-- components/navigation.tsx: the two bars of links.
use wwfsdb.Base.{String, Bool, List, [], ◌∷◌, ◌==◌, map, take}
use wwfsdb.Pages.Display.{
  Icon, home, wallet, arrow_left_right, credit_card, users, file_text, settings,
}

pub record NavItem : Type 0 where
  pub href : String
  pub label : String
  pub icon : Icon

abbrev nav_items : List NavItem
nav_items =
    record { href = "/dashboard"; label = "Home"; icon = home }
    ∷ record { href = "/accounts"; label = "Accounts"; icon = wallet }
    ∷ record { href = "/transactions"; label = "Transactions"; icon = arrow_left_right }
    ∷ record { href = "/cards"; label = "Cards"; icon = credit_card }
    ∷ record { href = "/beneficiaries"; label = "Beneficiaries"; icon = users }
    ∷ record { href = "/loans"; label = "Loans"; icon = file_text }
    ∷ record { href = "/profile"; label = "Profile"; icon = settings }
    ∷ []

-- A link, and whether it is marked as the page that is open.
abbrev with_mark : (pathname : String) → NavItem → NavItem × Bool
with_mark pathname item = (item, pathname == item.href)

-- `BottomNav`
abbrev bottom_nav : (pathname : String) → List (NavItem × Bool)
bottom_nav pathname = map (with_mark pathname) (take 5 nav_items)

-- `SideNav`
abbrev side_nav : (pathname : String) → List (NavItem × Bool)
side_nav pathname = map (with_mark pathname) nav_items
