-- ===== src/Httpserver/Routing/Closed.antt =====
-- Which requests the mux lets into the internal API and to the assets, server.go.
use audistro_provider.Prelude.{
  ◌≡◌, refl, ◌∙◌, Bool, true, false, not, ◌&&◌, none, List, [], ◌∷◌, ◌++◌, Text, codes, all,
  text_eq, arith,
}
use audistro_provider.Go.Strings.{has_prefix, has_suffix}
use audistro_provider.Config.{Config}
use audistro_provider.Httpserver.Routing.{
  Endpoint, rescan, announce, assets, Route, post, only_if, routes, matches_path, Routed, to,
  not_found, not_allowed, dispatch,
}

abbrev is_internal : Endpoint → Bool
is_internal rescan = true
is_internal announce = true
is_internal _ = false

abbrev leads_inside : Routed → Bool
leads_inside (to e) = is_internal e
leads_inside not_found = false
leads_inside not_allowed = false

dispatch-public :
    (rs : List Route) (method path : Text)
    → all (λ r. not (is_internal r.endpoint)) rs ≡ true
    → leads_inside (dispatch rs method path) ≡ false
unfolding dispatch
dispatch-public [] method path h = refl
dispatch-public (r ∷ rs) method path h = ground (arith, dispatch-public rs method path)

-- While the internal API is off, no request reaches it.
pub routes-closed :
    (cfg : Config) (has_rescan has_announce : Bool) (method path : Text)
    → cfg.internal_enable ≡ false
    → leads_inside (dispatch (routes cfg has_rescan has_announce) method path) ≡ false
unfolding routes
routes-closed cfg has_rescan has_announce method path off =
    dispatch-public (routes cfg has_rescan has_announce) method path (rw off refl)

dispatch-skipped :
    (b : Bool) (r : Route) (rs : List Route) (method path : Text)
    → matches_path r path ≡ false
    → dispatch (only_if b r ++ rs) method path ≡ dispatch rs method path
unfolding dispatch
dispatch-skipped false r rs method path h = refl
dispatch-skipped true r rs method path h = rw h refl

-- Every method of a path that begins with /assets/ is for the handler of the assets, which is so
-- whatever the settings are.
pub routes-assets :
    (cfg : Config) (has_rescan has_announce : Bool) (method rest : Text)
    → dispatch (routes cfg has_rescan has_announce) method (codes "/assets/" ++ rest) ≡ to assets
unfolding routes dispatch matches_path has_prefix has_suffix text_eq
routes-assets cfg has_rescan has_announce method rest =
    let path = codes "/assets/" ++ rest in
    let last : List Route =
      record { method = none; path = codes "/assets/"; endpoint = assets } ∷ [] in
    dispatch-skipped (cfg.internal_enable && has_rescan) (post (codes "/internal/rescan") rescan)
      (only_if (cfg.internal_enable && has_announce) (post (codes "/internal/announce") announce)
        ++ last)
      method path refl
    ∙ dispatch-skipped (cfg.internal_enable && has_announce)
        (post (codes "/internal/announce") announce) last method path refl
