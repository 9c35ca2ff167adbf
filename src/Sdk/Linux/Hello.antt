-- ===== src/Sdk/Linux/Hello.antt =====
-- sdk/linux/examples/hello.c: the program asks for the kernel's names and prints them. What `uname`
-- gives is a parameter; a name is the text before its first zero.
use qrisc_v.Base.{ℕ, List, ◌∷◌, ◌++◌}
use qrisc_v.Sdk.Examples.{utf8, text}
use qrisc_v.Sdk.Linux.{Call, printed}

-- `struct utsname`, as far as it is printed.
pub record Utsname : Type 0 where
  pub sysname : List ℕ
  pub release : List ℕ
  pub machine : List ℕ

-- The second line.
unfoldable pub names_line : Utsname → List ℕ
unfolding utf8
names_line u =
    text "  内核: "
    ++ (u.sysname ++ (text " " ++ (u.release ++ (text "  架构: " ++ (u.machine ++ text "\n")))))

-- The exit status, and the calls, the latest first.
unfoldable pub hello_linux_main : (List Call → Utsname) → List Call → ℕ × List Call
unfolding utf8 names_line
hello_linux_main uname calls =
    let u = uname calls in
    (
      0,
      printed (text "  这是编进 rootfs、在 Linux 进程里运行的,不是裸机。\n")
          ∷ printed (names_line u)
          ∷ printed (text "Hello from biRISC-V Linux 用户态程序!\n")
          ∷ calls,
    )
