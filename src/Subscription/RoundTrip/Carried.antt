-- ===== src/Subscription/RoundTrip/Carried.antt =====
-- What a document that EncodeClashYAML of pkg/subscription/subscription.go writes carries of its tunnels.
use safelink_ssh.Base.{
  ℕ, ◌≡◌, ◌≢◌, refl, sym, subst, ◌∙◌, ◌≤◌, inl, inr, ◌==◌, true, false, ◌||◌, Result, ok, and_then,
  and_then_rule, List, [], ◌∷◌, ◌++◌, map, All, arith, if_rule,
}
use safelink_ssh.Base.Int.{ℤ, pos, negsuc}
use safelink_ssh.Text.{Text, text_eq, is_empty}
use safelink_ssh.Text.Laws.{text_eq_refl, not_empty}
use safelink_ssh.Config.Tunnel.{TunnelCfg, mode_vpn, validate_tunnel}
use safelink_ssh.Config.Tunnel.Validity.{
  IsComplete, gateway, forwards, proxies, validate_tunnel_iff,
}
use safelink_ssh.Net.HostPort.{has_rune, join_host_port}
use safelink_ssh.Subscription.Codec.{ClashProxy, clash_safe_link_type}
use safelink_ssh.Subscription.Parse.{prepend, is_zero, itoa, clash_tunnel, clash_tunnels}
use safelink_ssh.Subscription.Encode.{split_forward, clash_proxy, clash_proxies, EncodeError}
use safelink_ssh.Subscription.Accepted.{IsAccepted}
use safelink_ssh.Subscription.RoundTrip.Address.{split_forward-IsEndpoint, split_forward-join}

-- What a Clash document carries of a tunnel: its name, its account, the host and the port of its
-- server, and the settings of its TUN device but the files of its certificate.
pub record IsCarried (t t' : TunnelCfg) : Type 0 where
  pub name : t'.name ≡ t.name
  pub mode : t'.mode ≡ mode_vpn
  pub user : t'.ssh.user ≡ t.ssh.user
  pub password : t'.ssh.password ≡ t.ssh.password
  pub address : split_forward t'.name t'.forward ≡ split_forward t.name t.forward
  pub subnet : t'.tun.subnet ≡ t.tun.subnet
  pub dns : t'.tun.dns ≡ t.tun.dns
  pub auto_route : t'.tun.auto_route ≡ t.tun.auto_route
  pub sni : t'.tun.sni ≡ t.tun.sni
  pub pin_sha256 : t'.tun.pin_sha256 ≡ t.tun.pin_sha256
  pub padding : t'.tun.padding ≡ t.tun.padding

unfoldable pub AllCarried : List TunnelCfg → List TunnelCfg → Type 0
AllCarried [] [] = Unit
AllCarried [] (t' ∷ ts') = ⊥
AllCarried (t ∷ ts) [] = ⊥
AllCarried (t ∷ ts) (t' ∷ ts') = IsCarried t t' × AllCarried ts ts'

-- A tunnel that ValidateTunnel takes and whose server, where it has one, has a host.
abbrev pub IsReadable : TunnelCfg → Type 0
IsReadable t =
    (validate_tunnel t ≡ ok tt)
    × ((e : Text × ℤ) → split_forward t.name t.forward ≡ ok e → e.0 ≢ [])

clash_tunnel-IsCarried :
    (t : TunnelCfg) (e : Text × ℤ)
    → split_forward t.name t.forward ≡ ok e
    → IsCarried t (clash_tunnel (clash_proxy t e))
unfolding clash_tunnel clash_proxy
clash_tunnel-IsCarried t e h = record {
  name = refl;
  mode = refl;
  user = refl;
  password = refl;
  address = split_forward-join t.name e (split_forward-IsEndpoint t.name t.forward e h) ∙ sym h;
  subnet = refl;
  dns = refl;
  auto_route = refl;
  sni = refl;
  pin_sha256 = refl;
  padding = refl;
}

-- What ValidateTunnel asks of a VPN tunnel.
complete_account :
    (t : TunnelCfg) → IsComplete t → t.mode ≡ mode_vpn → (t.ssh.user ≢ []) × (t.ssh.password ≢ [])
complete_account t (forwards (inl m) l f a) mode = cc (m, mode)
complete_account t (forwards (inr m) l f a) mode = cc (m, mode)
complete_account t (proxies m l a) mode = cc (m, mode)
complete_account t (gateway m f u p) mode = (u, p)

front-ne_nil : (c : ℕ) (s : Text) → (c ∷ s) ≢ []
front-ne_nil c s e = cc

behind-ne_nil : (s t : Text) (c : ℕ) → s ++ c ∷ t ≢ []
behind-ne_nil [] t c e = cc
behind-ne_nil (d ∷ s) t c e = cc

join-ne_nil : (host port : Text) → join_host_port host port ≢ []
unfolding join_host_port
join-ne_nil host port =
    if_rule (λ s. s ≢ []) (has_rune b':' host) _ _
      (λ e. front-ne_nil b'[' (host ++ b']' ∷ b':' ∷ port)) (λ e. behind-ne_nil host port b':')

clash_tunnel-IsAccepted :
    (t : TunnelCfg) (e : Text × ℤ) → IsAccepted t → IsAccepted (clash_tunnel (clash_proxy t e))
unfolding clash_tunnel clash_proxy
clash_tunnel-IsAccepted t e (mode, valid) =
    let (named, complete) = (validate_tunnel_iff t).0 valid in
    let (user, password) = complete_account t complete mode in
    (
      refl,
      (validate_tunnel_iff _).1 (named, gateway refl (join-ne_nil e.0 (itoa e.1)) user password),
    )

clash_tunnels-one :
    (p : ClashProxy) (ps : List ClashProxy) (us : List TunnelCfg)
    → text_eq p.type clash_safe_link_type ≡ true
    → (is_empty p.name || is_empty p.server || is_zero p.port) ≡ false
    → clash_tunnels ps ≡ ok us
    → clash_tunnels (p ∷ ps) ≡ ok (clash_tunnel p ∷ us)
unfolding clash_tunnels and_then prepend
clash_tunnels-one p ps us e e' e'' = rw (e, e', e'') refl

is_zero-pos : (z : ℤ) (n : ℕ) → z ≡ pos n → 1 ≤ n → is_zero z ≡ false
unfolding is_zero
is_zero-pos (pos m) n e h = not_zero m n (same e) h
  where
    same : pos m ≡ pos n → m ≡ n
    same e' = cc

    not_zero : (k l : ℕ) → k ≡ l → 1 ≤ l → (k == 0) ≡ false
    not_zero k l e' h' = ground arith
is_zero-pos (negsuc m) n e h = refl

-- What the proxies of a document make of the tunnels they were written for.
abbrev pub Carries : List TunnelCfg → List ClashProxy → Type 0
Carries ts ps =
    (clash_tunnels ps ≡ ok (map clash_tunnel ps))
    × AllCarried ts (map clash_tunnel ps)
    × All IsAccepted (map clash_tunnel ps)

Carries-one :
    (t : TunnelCfg) (e : Text × ℤ) (ts : List TunnelCfg) (ps : List ClashProxy)
    → IsAccepted t
    → split_forward t.name t.forward ≡ ok e
    → e.0 ≢ []
    → Carries ts ps
    → Carries (t ∷ ts) (clash_proxy t e ∷ ps)
unfolding AllCarried clash_proxy
Carries-one t e ts ps accepted split host (read, carried, all_accepted) = (
  clash_tunnels-one (clash_proxy t e) ps _ (text_eq_refl clash_safe_link_type) complete read,
  (clash_tunnel-IsCarried t e split, carried),
  (clash_tunnel-IsAccepted t e accepted, all_accepted),
)
  where
    complete : (is_empty t.name || is_empty e.0 || is_zero e.1) ≡ false
    complete =
        let (n, same, lo, hi) = (split_forward-IsEndpoint t.name t.forward e split).port in
        rw
          (
            not_empty t.name ((validate_tunnel_iff t).0 accepted.1).0,
            not_empty e.0 host,
            is_zero-pos e.1 n same lo,
          )
          refl

same_ok :
    {ps qs : List ClashProxy}
    → ◌≡◌ {A = Result EncodeError (List ClashProxy)} (ok ps) (ok qs)
    → ps ≡ qs
same_ok e = cc

no_tunnels-Carries : Carries [] []
unfolding AllCarried clash_tunnels
no_tunnels-Carries = (refl, tt, tt)

pub clash_proxies-Carries :
    (ts : List TunnelCfg) (ps : List ClashProxy)
    → All IsAccepted ts
    → All IsReadable ts
    → clash_proxies ts ≡ ok ps
    → Carries ts ps
unfolding clash_proxies
clash_proxies-Carries [] ps accepted readable h = subst (Carries []) (same_ok h) no_tunnels-Carries
clash_proxies-Carries (t ∷ ts) ps (a, accepted) (r, readable) h =
    and_then_rule (Carries (t ∷ ts)) (split_forward t.name t.forward) _
      (λ e split. and_then_rule (Carries (t ∷ ts)) (clash_proxies ts) _ (λ qs written qs' h'.
        subst (Carries (t ∷ ts)) (same_ok h') (
          Carries-one t e ts qs a split (r.1 e split)
            (clash_proxies-Carries ts qs accepted readable written))))
      ps h
