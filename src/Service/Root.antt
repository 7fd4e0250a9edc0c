-- ===== src/Service/Root.antt =====
-- internal/service/service_other.go: installation and removal without root.
use nz.Base.{◌≡◌, ◌≢◌, refl, ap, String, true, not, [], ◌==◌, nat_eq, if_both, if_true, arith}
use nz.Service.{System, Outcome, Text, text, failed, install, with_path, install_at, uninstall}

module _ (sys : System) (other : sys.euid ≢ 0) where
  not_root : not (sys.euid == 0) ≡ true
  not_root = ground (arith, other)

  with_path_no_root : (t : Text) → (with_path sys t).0 ≡ []
  unfolding with_path install_at
  with_path_no_root (failed e) = refl
  with_path_no_root (text path) =
      if_both (λ (o : Outcome). o.0 ≡ []) (not sys.has_systemd) _ _ refl
        (ap (λ (o : Outcome). o.0) (if_true (not (sys.euid == 0)) _ _ not_root))

  pub install_no_root : (path : String) → (install sys path).0 ≡ []
  unfolding install
  install_no_root path = with_path_no_root (sys.absolute path)

  pub uninstall_no_root : (uninstall sys).0 ≡ []
  unfolding uninstall
  uninstall_no_root = ap (λ (o : Outcome). o.0) (if_true (not (sys.euid == 0)) _ _ not_root)
