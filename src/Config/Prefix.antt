-- ===== src/Config/Prefix.antt =====
-- The constants of internal/config/config.go.
use fasthttpproxy.Common.Text.{Str, codes}

-- PrefixHTTP and PrefixHTTPS
abbrev pub prefix_http : Str
prefix_http = codes "http://"

abbrev pub prefix_https : Str
prefix_https = codes "https://"
