-- ===== src/Subscription/RoundTrip/Json.antt =====
-- EncodeSafeLinkJSON and Parse of pkg/subscription/subscription.go.
use safelink_ssh.Base.{
  ◌≡◌, ◌≢◌, refl, ap, ap₂, Option, ◌∙◌, Bool, true, none, some, ok, ok_or, and_then, List, [], ◌∷◌,
  All, if◌then◌else◌,
}
use safelink_ssh.Text.{Text, text_eq, is_empty}
use safelink_ssh.Text.Laws.{text_eq_iff}
use safelink_ssh.Config.Tunnel.{TunnelCfg, mode_vpn}
use safelink_ssh.Subscription.Codec.{Codec}
use safelink_ssh.Subscription.Parse.{
  ParseError, with_mode, normalize_one, normalize_loop, normalize_step, normalize_tunnels,
  some_tunnels, no_vpn_tunnels, prepend,
}
use safelink_ssh.Subscription.Accepted.{IsAccepted}

filled : (m : Text) → m ≡ mode_vpn → (if is_empty m then mode_vpn else m) ≡ m
filled m e = rw e refl

vpn_mode : (t : TunnelCfg) → t.mode ≡ mode_vpn → with_mode t ≡ t
vpn_mode t e = ap (λ m. record t { mode = m }) (filled t.mode e)

same_mode : (t : TunnelCfg) → t.mode ≡ mode_vpn → text_eq t.mode mode_vpn ≡ true
same_mode t e = (text_eq_iff t.mode mode_vpn).1 e

if_true : {A : Type 0} (b : Bool) (x y : A) → b ≡ true → (if b then x else y) ≡ x
if_true b x y e = rw e refl

normalize_one_accepted :
    (t : TunnelCfg) (ts : List TunnelCfg) → IsAccepted t → normalize_one t (ok ts) ≡ ok (t ∷ ts)
unfolding normalize_one normalize_step and_then prepend
normalize_one_accepted t ts (mode, valid) =
    if_true (text_eq t.mode mode_vpn) _ _ (same_mode t mode)
    ∙ ap (λ r. normalize_step t r (ok ts)) valid

normalize_loop_accepted : (ts : List TunnelCfg) → All IsAccepted ts → normalize_loop ts ≡ ok ts
unfolding normalize_loop
normalize_loop_accepted [] h = refl
normalize_loop_accepted (t ∷ ts) (accepted, h) =
    ap₂ normalize_one (vpn_mode t accepted.0) (normalize_loop_accepted ts h)
    ∙ normalize_one_accepted t ts accepted

pub some_tunnels_self : (e : ParseError) (ts : List TunnelCfg) → ts ≢ [] → some_tunnels e ts ≡ ok ts
unfolding some_tunnels
some_tunnels_self e [] ne = absurd (ne refl)
some_tunnels_self e (t ∷ ts) ne = refl

pub normalize_tunnels_accepted :
    (ts : List TunnelCfg) → All IsAccepted ts → ts ≢ [] → normalize_tunnels ts ≡ ok ts
unfolding normalize_tunnels and_then
normalize_tunnels_accepted ts h ne =
    ap (λ r. and_then r (some_tunnels no_vpn_tunnels)) (normalize_loop_accepted ts h)
    ∙ some_tunnels_self no_vpn_tunnels ts ne

pub ok_or-ok : {E A : Type 0} (e : E) (o : Option A) (a : A) → ok_or e o ≡ ok a → o ≡ some a
unfolding ok_or
ok_or-ok e none a h = cc
ok_or-ok e (some b) a h = cc
