-- ===== src/Subscription/RoundTrip/Clash.antt =====
-- EncodeClashYAML and Parse of pkg/subscription/subscription.go.
use safelink_ssh.Text.{Text}
use safelink_ssh.Subscription.Codec.{Codec}
