-- ===== src/Local/Options.antt =====
-- cmd/local/main.go: the flags of `main`, and what it prints before its loop. What the flag package
-- reads from the command line is a list of settings; how numbers and durations are printed is a
-- parameter.
use koprobe.Prelude.{◌*◌, ◌^◌, Bool, false, Text, codes, ℤ, pos, foldl, List, ◌++◌}

pub record Options : Type 0 where
  pub port : ℤ
  pub interval : ℤ
  pub no_ui : Bool

-- One flag of the command line, with its value.
pub data Setting : Type 0 where
  port interval : ℤ → Setting
  no_ui : Bool → Setting

-- durations are in nanoseconds
abbrev pub default_options : Options
default_options = record { port = pos 8080; interval = pos (3 * 10 ^ 9); no_ui = false }

abbrev pub set : Options → Setting → Options
set o (Setting.port v) = record o { port = v }
set o (Setting.interval v) = record o { interval = v }
set o (Setting.no_ui v) = record o { no_ui = v }

unfoldable pub parse_options : List Setting → Options
parse_options settings = foldl set default_options settings

-- `printBanner`
abbrev pub banner : Text
banner =
    codes
      "\n ██╗  ██╗██╗   ██╗██████╗ ███████╗    ███████╗██╗███╗  ██╗\n ██║ ██╔╝██║   ██║██╔══██╗██╔════╝    ██╔════╝██║████╗ ██║\n █████╔╝ ██║   ██║██████╔╝█████╗      █████╗  ██║██╔██╗██║\n ██╔═██╗ ██║   ██║██╔══██╗██╔══╝      ██╔══╝  ██║██║╚████║\n ██║  ██╗╚██████╔╝██████╔╝███████╗    ██║     ██║██║ ╚███║\n ╚═╝  ╚═╝ ╚═════╝ ╚═════╝ ╚══════╝   ╚═╝     ╚═╝╚═╝  ╚══╝\n         Local Simulator — No K8s or eBPF needed\n"

-- one line of the list of endpoints, up to the line feed
unfoldable pub endpoint : (decimal : ℤ → Text) → ℤ → Text → Text
endpoint decimal number path = codes "  → http://localhost:" ++ (decimal number ++ path)

-- what `main` prints before its loop, after the banner
unfoldable pub announcement : (decimal duration : ℤ → Text) → Options → Text
unfolding endpoint
announcement decimal duration o =
    codes "\n  🚀 Running!  Tick every "
    ++ (duration o.interval
        ++ (codes "\n\n  Endpoints:\n"
            ++ (endpoint decimal o.port (codes "/api/v1/costs/summary\n")
                ++ (endpoint decimal o.port (codes "/api/v1/costs/by-team\n")
                    ++ (endpoint decimal o.port (codes "/api/v1/costs/by-pod\n")
                        ++ (endpoint decimal o.port (codes "/api/v1/costs/waste\n")
                            ++ (endpoint decimal o.port (codes "/api/v1/costs/history\n")
                                ++ (endpoint decimal o.port (codes "/api/v1/alerts\n")
                                    ++ endpoint decimal o.port
                                        (codes "/metrics  (Prometheus)\n\n")))))))))
