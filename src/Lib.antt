-- ===== src/Lib.antt =====
-- Verification of OSAssignments: the C programs of an operating systems course.
--
-- The programs do not call each other; each directory below stands for one of them.
--
-- Polling (Assignment4/q2.c). Robots bring voters to voting machines of a booth. `System` has the
-- state (`voting_Bth`, the machines, and for each thread the place it has reached) and one step
-- for each robot and machine: what a thread does under the mutex is one step, and what it reads
-- outside is a step of its own (`booth_get_voter` tests a counter before it takes the mutex). A
-- schedule is a list of threads, `run` follows it, and the theorems hold for every schedule.
-- `Occupancy` and `Votes` hold the invariants of the machines and of the counters, `Race` the
-- lost test, `Safety` what follows for main. `Ends` says when a thread comes to its end, and
-- `Progress` finds the turns by which the next vote is cast. A failing assert stops the run.
--
-- MergeSort (Assignment4/q3_normal.c, q3_threaded.c, q3_forked.c). `Normal` is the sort by
-- recursion, `Threaded` the one with a thread for each half, `Forked` the one with a process for
-- each half; `Passes` holds the loops of their merges. An array is a function from indices, so
-- that what lies behind the part to be sorted is there as well; the empty array, where the last
-- index is -1, is a case of its own. qsort, the success of pthread_create and fork, and the order
-- of the threads are parameters. `Agreement` compares the three.
--
-- Shell (Assignment3/wonderShell/wonderShell.c). A line is read and split (`Parse`, on the string
-- functions of `Text`) into commands; each goes through the redirections (`Redirect`: chkFile) to
-- the choice of a command (`Dispatch`: executeInbuild), which runs it itself (`Inbuild`) or
-- starts a process (`Process`: foreGroundProcess, backGroundProcess, checkChild). `Pipeline` has
-- executeCommand and fork_pipes, with the descriptors they leave open, `Flags` the options of ls,
-- `Signals` ctrlC and ctrlZ, and `Main` the loop of main. `Restores` follows the descriptors 0 and
-- 1 through all of it. `Listing`, `Clock` and `Pinfo` have what ls, clkCmd and pinfoEntered
-- print, and `Shows` makes commands of them. `Jobs` is the list of background jobs and `Reminder`
-- the message of `remindme`. The operating system is a function from the calls made so far to its
-- answers. A null pointer that is followed ends the shell.
--
-- Reversal (Assignment1/task1.c and task2.c). `turn_block` is what becomes of one block of the
-- file, the change of case and `reverse`; `Copying` is the loop of main that goes through the
-- file from its end, and `Checking` the program that checks the result.
--
-- Badminton (Assignment4/q1.c). Players and referees are threads of `Court`, one step for what a
-- thread does under a mutex, in any order; where a thread that holds a mutex matters to others
-- that do not ask for it, the step is split. `Counters` and `Plan` say what the organiser keeps,
-- `Early`, `Teams` and `Wake` how a team is formed or lost, `Arrivals` whom main starts.
--
-- Station (Assignment4/q1_temp.c). Cars queue at a petrol station, come to the pumps and pay,
-- attenders serve them; `Defs` has a step for each thread, `Queue`, `Money` and `Pumps` what
-- holds of the queue, of the cash machine and of the number at the pumps. A thread that waits on
-- a condition tests it again at each turn: the model has all runs of the program, and more, so
-- that it shows what never happens, and not that a waiting thread goes on.
--
-- Drafts (Assignment3/wonderShell/exp.c, wonder.c and exp1.c, in this order). The states of the
-- shell before wonderShell.c: the redirections, Ctrl-C and the pipelines, as far as they differ
-- from it. All else is the same code, taken from `Shell`.
--
-- Tutorial (Assignment3/Tutorial_3). 1_dup.c, where the output moves to a file between two lines;
-- 2_pipe.c, which sends a word through a pipe; and 3_pipefork.c, where the word goes from one
-- process to another, one step for each call of a process.
--
-- FirstShell (Assignment2/wonderShell/wonderShell.c). The first state of the shell; what is the
-- same text as in Assignment3 (clkCmd, ls, the strings and the alarm) is taken from `Shell`.
--
-- Kernel (Assignment5/xv6-public/sysproc.c and invertcase.c). What the assignment adds to xv6:
-- the call that copies the table of processes, and a program.
--
-- Loops run on fuel. `while` of Common/Loops gets one round more than the loop has cells, and
-- `while_leaves` shows that the test has failed by then; the recursion of the sorts gets the
-- number of cells, and `reverse` one more; the loop over a file needs more rounds than there are
-- blocks; `replaceWord` gets the length of its string, as each round takes one character at
-- least; the loop over the table of processes gets the size of the buffer; the wait for a child
-- gets a number of rounds as a parameter and has the outcome `waiting` when they are used up.
--
-- Not modelled: the overflow of int and the sizes of buffers; messages of fixed text; and the rest
-- of Assignment5, a copy of xv6.
pub mod Common
pub mod Polling
pub mod Badminton
pub mod Station
pub mod Tutorial
pub mod Kernel
pub mod Drafts
pub mod FirstShell
pub mod MergeSort
pub mod Shell
pub mod Reversal
