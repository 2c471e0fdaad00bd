-- ===== src/Subscription/Accepted.antt =====
-- What Parse of pkg/subscription/subscription.go returns when it returns no error.
use safelink_ssh.Base.{
  ◌≡◌, ◌≢◌, refl, ap, subst, Bool, Result, ok, err, List, [], ◌∷◌, All, if_rule, and_then,
  and_then_rule, if◌then◌else◌,
}
use safelink_ssh.Text.{Text, text_eq}
use safelink_ssh.Text.Laws.{eq_of_text_eq}
use safelink_ssh.Config.Tunnel.{TunnelCfg, TunnelError, mode_vpn, validate_tunnel}
use safelink_ssh.Subscription.Codec.{Codec}
use safelink_ssh.Subscription.Parse.{
  invalid_tunnel, no_vpn_tunnels, ParseError, Tunnels, with_mode, prepend, normalize_step,
  normalize_one, normalize_loop, some_tunnels, normalize_tunnels, parse_safe_link_json,
  parse_clash_yaml, first_parsed, parse,
}

-- A VPN tunnel that ValidateTunnel takes.
abbrev pub IsAccepted : TunnelCfg → Type 0
IsAccepted t = (t.mode ≡ mode_vpn) × (validate_tunnel t ≡ ok tt)

abbrev pub IsVpnList : List TunnelCfg → Type 0
IsVpnList ts = (ts ≢ []) × All IsAccepted ts

module _ (P : List TunnelCfg → Type 0) where
  -- What holds of the tunnels that come without an error.
  abbrev Allows : Tunnels → Type 0
  Allows r = (ts : List TunnelCfg) → r ≡ ok ts → P ts

  ok-Allows : (ts : List TunnelCfg) → P ts → Allows (ok ts)
  ok-Allows ts h us e = subst P (same e) h
    where
      same : {ks ls : List TunnelCfg} → ◌≡◌ {A = Tunnels} (ok ks) (ok ls) → ks ≡ ls
      same e' = cc

  err-Allows : (e : ParseError) → Allows (err e)
  err-Allows e ts h = cc

  if_Allows : (b : Bool) (x y : Tunnels) → Allows x → Allows y → Allows (if b then x else y)
  if_Allows b x y h k = if_rule Allows b x y (λ e. h) (λ e. k)

All-prepend :
    (t : TunnelCfg) (rest : Tunnels)
    → IsAccepted t
    → Allows (All IsAccepted) rest
    → Allows (All IsAccepted) (and_then rest (prepend t))
unfolding and_then prepend
All-prepend t (ok ts) accepted h = ok-Allows (All IsAccepted) (t ∷ ts) (accepted, h ts refl)
All-prepend t (err e) accepted h = err-Allows (All IsAccepted) e

normalize_step-All :
    (t : TunnelCfg) (r : Result TunnelError (Unit {0})) (rest : Tunnels)
    → t.mode ≡ mode_vpn
    → validate_tunnel t ≡ r
    → Allows (All IsAccepted) rest
    → Allows (All IsAccepted) (normalize_step t r rest)
unfolding normalize_step
normalize_step-All t (ok u) rest mode valid h = All-prepend t rest (mode, valid) h
normalize_step-All t (err e) rest mode valid h =
    err-Allows (All IsAccepted) (invalid_tunnel t.name e)

normalize_one-All :
    (t : TunnelCfg) (rest : Tunnels)
    → Allows (All IsAccepted) rest
    → Allows (All IsAccepted) (normalize_one t rest)
unfolding normalize_one
normalize_one-All t rest h =
    if_rule (Allows (All IsAccepted)) (text_eq t.mode mode_vpn) _ _
      (λ e. normalize_step-All t _ rest (eq_of_text_eq _ _ e) refl h) (λ e. h)

normalize_loop-All : (ts : List TunnelCfg) → Allows (All IsAccepted) (normalize_loop ts)
unfolding normalize_loop
normalize_loop-All [] = ok-Allows (All IsAccepted) [] tt
normalize_loop-All (t ∷ ts) = normalize_one-All (with_mode t) _ (normalize_loop-All ts)

some_tunnels-Allows :
    (e : ParseError) (ts : List TunnelCfg)
    → All IsAccepted ts
    → Allows IsVpnList (some_tunnels e ts)
unfolding some_tunnels
some_tunnels-Allows e [] h = err-Allows IsVpnList e
some_tunnels-Allows e (t ∷ ts) h = ok-Allows IsVpnList (t ∷ ts) ((λ e'. cc), h)

normalize_tunnels-Allows : (ts : List TunnelCfg) → Allows IsVpnList (normalize_tunnels ts)
unfolding normalize_tunnels
normalize_tunnels-Allows ts =
    and_then_rule IsVpnList (normalize_loop ts) (some_tunnels no_vpn_tunnels)
      (λ us e. some_tunnels-Allows no_vpn_tunnels us (normalize_loop-All ts us e))

parse_safe_link_json-Allows :
    (codec : Codec) (content : Text) → Allows IsVpnList (parse_safe_link_json codec content)
unfolding parse_safe_link_json
parse_safe_link_json-Allows codec content =
    search (and_then_rule IsVpnList, normalize_tunnels-Allows)

parse_clash_yaml-Allows :
    (codec : Codec) (content : Text) → Allows IsVpnList (parse_clash_yaml codec content)
unfolding parse_clash_yaml
parse_clash_yaml-Allows codec content = search (and_then_rule IsVpnList, normalize_tunnels-Allows)

abbrev AllowsVpnList : Text × Tunnels → Type 0
AllowsVpnList p = (f : Text) (ts : List TunnelCfg) → p ≡ (f, ok ts) → IsVpnList ts

with_format : (f : Text) (r : Tunnels) → Allows IsVpnList r → AllowsVpnList (f, r)
with_format f r h g ts e = h ts (ap (λ p. p.1) e)

first_parsed-AllowsVpnList :
    (f : Text) (r : Tunnels) (later : Text × Tunnels)
    → Allows IsVpnList r
    → AllowsVpnList later
    → AllowsVpnList (first_parsed f r later)
unfolding first_parsed
first_parsed-AllowsVpnList f (ok ts) later h rest = with_format f (ok ts) h
first_parsed-AllowsVpnList f (err e) later h rest = rest

if_AllowsVpnList :
    (b : Bool) (x y : Text × Tunnels)
    → AllowsVpnList x
    → AllowsVpnList y
    → AllowsVpnList (if b then x else y)
if_AllowsVpnList b x y h k = if_rule AllowsVpnList b x y (λ e. h) (λ e. k)

failed-AllowsVpnList : (f : Text) (e : ParseError) → AllowsVpnList (f, err e)
failed-AllowsVpnList f e g ts h = cc

-- Whatever the decoders return: when Parse returns no error, it returns at least one tunnel, and all
-- of them are VPN tunnels that ValidateTunnel takes.
pub parse-IsVpnList :
    (codec : Codec) (content format f : Text) (ts : List TunnelCfg)
    → parse codec content format ≡ (f, ok ts)
    → (ts ≢ []) × All IsAccepted ts
unfolding parse
parse-IsVpnList codec content format =
    search
      (
        if_AllowsVpnList,
        first_parsed-AllowsVpnList,
        with_format _ _ (parse_safe_link_json-Allows codec content),
        with_format _ _ (parse_clash_yaml-Allows codec content),
        parse_safe_link_json-Allows,
        parse_clash_yaml-Allows,
        failed-AllowsVpnList,
      )
      depth 10
