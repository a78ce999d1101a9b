-- ===== src/Linux/Cdev.antt =====
-- cr_host_cdev_init() and cr_host_lkm_exit() of subr_Linux.c. The kernel's functions are modelled by
-- their results and by what they register: a function that releases what is not registered, or a
-- class that still has a device, has no behaviour. cr_host_map_free() does nothing.
pub mod Held
mod Tests
use clearram.Base.{ℕ, some, none, Option, Bool, not, false, if◌then◌else◌, ◌==◌, true, ◌&&◌}

-- A value or a pointer, or the negative of an errno value in its place.
pub data Value : Type 0 where
  value : ℕ → Value
  error : ℕ → Value

abbrev pub is_error : Value → Bool
is_error (value v) = false
is_error (error e) = true

-- `if (x)`.
abbrev pub is_set : Value → Bool
is_set (value v) = not (v == 0)
is_set (error e) = true

-- The variables of the program, and what the kernel has registered for it.
pub record Cdev : Type 0 where
  pub host_cdev_major : Value
  pub host_cdev_class : Value
  pub host_cdev_device : Value
  pub chrdev_held : Bool
  pub class_held : Bool
  pub device_held : Bool

pub record Returned : Type 0 where
  pub ret : Value
  pub state : Cdev

abbrev pub unregister_chrdev : Cdev → Option Cdev
unregister_chrdev s = if s.chrdev_held then some (record s { chrdev_held = false }) else none

abbrev pub class_destroy : Cdev → Option Cdev
class_destroy s =
    if s.class_held && not s.device_held then some (record s { class_held = false }) else none

abbrev pub device_destroy : Cdev → Option Cdev
device_destroy s = if s.device_held then some (record s { device_held = false }) else none

abbrev pub then_do : Option Cdev → (Cdev → Option Cdev) → Option Cdev
then_do none k = none
then_do (some s) k = k s

abbrev pub returning : Value → Option Cdev → Option Returned
returning ret none = none
returning ret (some s) = some (record { ret = ret; state = s })

-- With the results of register_chrdev(), class_create() and device_create().
unfoldable pub cdev_init : (major class device : Value) → Cdev → Option Returned
cdev_init major class device s =
    let s1 = record s { host_cdev_major = major; chrdev_held = not (is_error major) } in
    let s2 = record s1 { host_cdev_class = class; class_held = not (is_error class) } in
    let s3 = record s2 { host_cdev_device = device; device_held = not (is_error device) } in
    if is_error major
    then returning major (some s1)
    else if is_error class
    then returning class (unregister_chrdev s2)
    else if is_error device
    then returning device (then_do (unregister_chrdev s3) (λ t. class_destroy t))
    else returning (value 0) (some s3)

abbrev pub release_if : Bool → (Cdev → Option Cdev) → Cdev → Option Cdev
release_if b release s = if b then release s else some s

unfoldable pub lkm_exit : Cdev → Option Cdev
lkm_exit s = then_do (release_if (is_set s.host_cdev_device) (λ t. device_destroy t) s) (λ t.
    then_do (release_if (is_set t.host_cdev_class) (λ u. class_destroy u) t)
      (λ u. release_if (is_set u.host_cdev_major) (λ v. unregister_chrdev v) u))
