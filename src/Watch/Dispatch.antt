-- ===== src/Watch/Dispatch.antt =====
-- lsp/FileWatchers.cpp and include/lsp/FileWatchers.h. A handler acts on a state of the server; the
-- extension of a change's path, as std::filesystem gives it, is a parameter.
use slang_server_verilator.Prelude.{
  Bool, false, ◌||◌, append_assoc, List, [], ◌∷◌, ◌++◌, map, ◌≡◌, refl, ap, if◌then◌else◌, Bytes,
  list_eqb,
}
use slang_server_verilator.Text.{codes}

-- `Watcher`: the globs that the client is sent, the extensions that are dispatched, and the handler,
-- which says whether it took the whole notification
pub record Watcher (Change State : Type 0) : Type 0 where
  pub patterns : List Bytes
  pub extensions : List Bytes
  pub handler : List Change → State → Bool × State

unfoldable pub any_equal : List Bytes → Bytes → Bool
any_equal [] e = false
any_equal (x ∷ xs) e = list_eqb x e || any_equal xs e

module _ {Change State : Type 0} where
  -- `addExtensions`
  unfoldable pub add_extensions :
      List (Watcher Change State)
      → List Bytes
      → (List Change → State → Bool × State)
      → List Bytes
      → List (Watcher Change State)
  add_extensions watchers extensions handler [] =
      watchers
      ++ record {
        patterns = map (λ e. codes "**/*" ++ e) extensions;
        extensions = extensions;
        handler = handler;
      }
        ∷ []
  add_extensions watchers extensions handler (p ∷ ps) =
      watchers ++ record { patterns = p ∷ ps; extensions = extensions; handler = handler } ∷ []

  -- `registrationOptions`: the workspace and a pattern in it, for each pattern
  unfoldable pub registration_options : List (Watcher Change State) → Bytes → List (Bytes × Bytes)
  registration_options [] workspace = []
  registration_options (w ∷ ws) workspace =
      map (λ p. (workspace, p)) w.patterns ++ registration_options ws workspace

  -- The changes whose extension the watcher has, in their order
  unfoldable pub matching : (Change → Bytes) → Watcher Change State → List Change → List Change
  matching extension w [] = []
  matching extension w (change ∷ changes) =
      let rest = matching extension w changes in
      if any_equal w.extensions (extension change) then change ∷ rest else rest

  -- A watcher is told of changes only if there are any.
  unfoldable pub tell : Watcher Change State → List Change → State → Bool × State
  tell w [] s = (false, s)
  tell w (change ∷ changes) s = w.handler (change ∷ changes) s

  -- `dispatch`
  unfoldable pub dispatch :
      (Change → Bytes) → List (Watcher Change State) → List Change → State → State
  dispatch extension [] changes s = s
  dispatch extension (w ∷ ws) changes s =
      let (taken, s') = tell w (matching extension w changes) s in
      let rest = dispatch extension ws changes s' in if taken then s' else rest

  -- A watcher none of whose extensions is among the changes is as if it were not there, wherever it
  -- stands.
  pub dispatch-unheard :
      (extension : Change → Bytes) (before : List (Watcher Change State)) (w : Watcher Change State)
      (after : List (Watcher Change State)) (changes : List Change) (s : State)
      → matching extension w changes ≡ []
      → dispatch extension (before ++ w ∷ after) changes s
        ≡ dispatch extension (before ++ after) changes s
  unfolding dispatch tell
  dispatch-unheard extension [] w after changes s h = rw h refl
  dispatch-unheard extension (b ∷ before) w after changes s h =
      ap
        (λ r.
          if (tell b (matching extension b changes) s).0
          then (tell b (matching extension b changes) s).1
          else r)
        (dispatch-unheard extension before w after changes
          (tell b (matching extension b changes) s).1 h)

  registered-append :
      (ws vs : List (Watcher Change State)) (workspace : Bytes)
      → registration_options (ws ++ vs) workspace
        ≡ registration_options ws workspace ++ registration_options vs workspace
  unfolding registration_options
  registered-append [] vs workspace = refl
  registered-append (w ∷ ws) vs workspace =
      rw
        (
          registered-append ws vs workspace,
          append_assoc (map (λ p. (workspace, p)) w.patterns) (registration_options ws workspace)
              (registration_options vs workspace),
        )
        refl
