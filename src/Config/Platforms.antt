-- ===== src/Config/Platforms.antt =====
-- internal/core/config/profile.go: platforms, resource tiers and their detection.
use bgscan.Base.{ℕ, ◌≤◌, Bool, true, false, ◌||◌, leb, ltb, if◌then◌else◌, ◌≡◌, arith}

pub data Platform : Type 0 where
  android desktop server : Platform

pub data Tier : Type 0 where
  low mid high : Tier

pub record SystemResources : Type 0 where
  pub cpu_cores : ℕ
  pub fd_limit : ℕ

unfoldable pub select_tier : SystemResources → Tier
select_tier res =
    if ltb res.fd_limit 512 || leb res.cpu_cores 2
    then low
    else if ltb res.fd_limit 4096 || leb res.cpu_cores 8
    then mid
    else high

pub data Goos : Type 0 where
  goos_android goos_linux goos_other : Goos

-- What EnvReader answers: whether a variable is set and not empty, a path exists, and process 1
-- is systemd.
pub record Env : Type 0 where
  pub display : Bool
  pub wayland_display : Bool
  pub dockerenv : Bool
  pub systemd : Bool
  pub termux_version : Bool
  pub termux_prefix : Bool

unfoldable pub is_server : Goos → Env → Bool
is_server goos_linux env =
    if env.display || env.wayland_display then false else env.dockerenv || env.systemd
is_server _ env = false

unfoldable pub is_termux : Env → Bool
is_termux env = env.termux_version || env.termux_prefix

unfoldable pub detect_platform : Goos → Env → Platform
unfolding is_server is_termux
detect_platform goos_android env = android
detect_platform goos_linux env =
    if is_termux env then android else if is_server goos_linux env then server else desktop
detect_platform goos_other env = desktop

abbrev pub rank : Tier → ℕ
rank low = 0
rank mid = 1
rank high = 2

-- More processors and more file descriptors never select a lower tier.
pub select_tier_mono :
    (a b : SystemResources)
    → a.cpu_cores ≤ b.cpu_cores
    → a.fd_limit ≤ b.fd_limit
    → rank (select_tier a) ≤ rank (select_tier b)
unfolding select_tier
select_tier_mono a b h k = ground arith

-- A machine counts as a server only if it runs Linux, is not Termux and has no display, and shows
-- a container or systemd.
pub detect_platform-server :
    (goos : Goos) (env : Env)
    → detect_platform goos env ≡ server
    → (goos ≡ goos_linux)
      × (is_termux env ≡ false)
      × (env.display || env.wayland_display ≡ false)
      × (env.dockerenv || env.systemd ≡ true)
unfolding detect_platform is_termux is_server
detect_platform-server goos_android env h = cc
detect_platform-server goos_linux env h = ground arith
detect_platform-server goos_other env h = cc
