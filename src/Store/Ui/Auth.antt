-- ===== src/Store/Ui/Auth.antt =====
-- Login, logout and the theme: what the page keeps in the store and in `localStorage`.
use nats_ui.Prelude.{
  String, str_eq_iff, ◌≡◌, refl, true, false, none, is_some, str_eq_refl, List, [], ◌∷◌, Dict,
  lookup, lookup-insert, lookup-erase, lookup-insert_self, arith,
}
use nats_ui.Store.Ui.{
  Page, token_key, get_token, theme_key, initial_ui, toggle_theme, set_auth, clear_auth,
}

-- The store's token is the stored one, and a user is logged in exactly where there is one.
pub record IsAuthentic (p : Page) : Type 0 where
  pub token : p.ui.auth_token ≡ lookup token_key p.storage
  pub logged_in : p.ui.is_authenticated ≡ is_some p.ui.auth_token

pub data AuthAction : Type 0 where
  log_in : String → AuthAction
  log_out toggles_theme : AuthAction

abbrev pub act : AuthAction → Page → Page
act (log_in token) p = set_auth token p
act log_out p = clear_auth p
act toggles_theme p = toggle_theme p

act-IsAuthentic : (a : AuthAction) (p : Page) → IsAuthentic p → IsAuthentic (act a p)
unfolding set_auth clear_auth toggle_theme
act-IsAuthentic (log_in token) p v = record {
  token = ground (arith, lookup-insert_self token_key token p.storage);
  logged_in = refl;
}
act-IsAuthentic log_out p v = record {
  token = ground (arith, lookup-erase token_key token_key p.storage, str_eq_refl token_key);
  logged_in = refl;
}
act-IsAuthentic toggles_theme p v = record {
  token = ground (
    arith,
    lookup-insert theme_key token_key (toggle_theme p).ui.theme p.storage,
    str_eq_iff theme_key token_key,
    v.token,
  );
  logged_in = v.logged_in;
}

pub run : List AuthAction → Page → Page
run [] p = p
run (a ∷ rest) p = run rest (act a p)

-- A page just loaded.
abbrev pub loaded : String → Dict String → Page
loaded now storage = record {
  ui = initial_ui now storage;
  storage = storage;
  dark_class = true;
  background = "";
}

loaded-IsAuthentic : (now : String) (storage : Dict String) → IsAuthentic (loaded now storage)
unfolding initial_ui
loaded-IsAuthentic now storage = record { token = refl; logged_in = refl }

-- What a logout leaves.
pub clear_auth-parts :
    (p : Page)
    → (get_token (clear_auth p).storage ≡ none)
      × ((clear_auth p).ui.is_authenticated ≡ false)
      × ((clear_auth p).ui.active_clusters ≡ [])
unfolding get_token clear_auth
clear_auth-parts p =
    (ground (arith, lookup-erase token_key token_key p.storage, str_eq_refl token_key), refl, refl)

run-IsAuthentic :
    (actions : List AuthAction) (p : Page) → IsAuthentic p → IsAuthentic (run actions p)
unfolding run
run-IsAuthentic [] p v = v
run-IsAuthentic (a ∷ rest) p v = run-IsAuthentic rest (act a p) (act-IsAuthentic a p v)

-- After any logins, logouts and changes of the theme from a page just loaded, the store's token is
-- the one in `localStorage`, and `isAuthenticated` holds exactly where there is one.
pub run-loaded :
    (actions : List AuthAction) (now : String) (storage : Dict String)
    → IsAuthentic (run actions (loaded now storage))
run-loaded actions now storage =
    run-IsAuthentic actions (loaded now storage) (loaded-IsAuthentic now storage)
