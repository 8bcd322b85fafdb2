-- ===== src/Constants.antt =====
-- assets/js/constants.js: the tables from a mode's character to the mode's name.
use convos.Prelude.{ℕ, Text, codes, [], ◌∷◌}
use convos.Prelude.Dict.{Dict}

unfoldable pub channel_mode_char_to_mode_name : Dict ℕ Text
channel_mode_char_to_mode_name =
    (b'b', codes "channel_ban")
    ∷ (b'C', codes "ctcp_block")
    ∷ (b'c', codes "colour_filter")
    ∷ (b'e', codes "ban_exemption")
    ∷ (b'F', codes "enable_forwarding")
    ∷ (b'f', codes "forward")
    ∷ (b'g', codes "free_invite")
    ∷ (b'i', codes "invite_only")
    ∷ (b'I', codes "invite_exemption")
    ∷ (b'j', codes "join_throttle")
    ∷ (b'k', codes "password")
    ∷ (b'l', codes "join_limit")
    ∷ (b'L', codes "large_ban_list")
    ∷ (b'm', codes "moderated")
    ∷ (b'M', codes "login_to_talk")
    ∷ (b'n', codes "prevent_external_send")
    ∷ (b'P', codes "permanent")
    ∷ (b'p', codes "privat")
    ∷ (b'Q', codes "block_forwarded_users")
    ∷ (b'q', codes "quiet")
    ∷ (b'r', codes "block_unidentified")
    ∷ (b'R', codes "login_to_join")
    ∷ (b's', codes "secret")
    ∷ (b'S', codes "secure_connection_only")
    ∷ (b't', codes "topic_protection")
    ∷ []

unfoldable pub user_mode_char_to_mode_name : Dict ℕ Text
user_mode_char_to_mode_name =
    (b'a', codes "admin")
    ∷ (b'B', codes "bot")
    ∷ (b'h', codes "half_operator")
    ∷ (b'i', codes "invisible")
    ∷ (b'I', codes "whois_hide_online")
    ∷ (b'o', codes "operator")
    ∷ (b'p', codes "whois_hide_channels")
    ∷ (b'R', codes "privmsg_from_registered_only")
    ∷ (b'q', codes "founder")
    ∷ (b'r', codes "registered")
    ∷ (b'S', codes "service_bot")
    ∷ (b'T', codes "ctcp_block")
    ∷ (b't', codes "vhost")
    ∷ (b'v', codes "voice")
    ∷ (b'W', codes "whois_notifications")
    ∷ (b'x', codes "cloaked_hostname")
    ∷ (b'z', codes "secure_connection")
    ∷ (b'Z', codes "secure_connection_only")
    ∷ []
